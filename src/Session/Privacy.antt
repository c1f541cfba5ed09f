-- ===== src/Session/Privacy.antt =====
-- What a logout, a failed request and the guards leave behind.
use save_box.Prelude.{
  ◌≡◌, ◌≢◌, ◌↔◌, ◌⊎◌, true, false, some, none, Option-cases, Bool-cases, inl, inr, arith,
}
use save_box.Drive.Navigation.Trail.{AreHidden, navigate_to-clear_decrypted_names}
use save_box.Session.App
use save_box.Session.App.{AppStatus, loading, unauthenticated, onboarding, locked, unlocked}
use save_box.Session.Token.{Text}
use save_box.Session.State.{Session, logout, logout_global}
use save_box.Session.Interceptors.{Outgoing, jwt_interceptor, Failed, error_interceptor}
use save_box.Session.Guards.{auth_guard, vault_guard}
use save_box.Session.Pages.{lock_drive}

-- What no session may hold once the user is gone.
pub record IsWiped (s : Session) : Type 0 where
  pub key : s.vault.vault_key ≡ none
  pub locked : s.vault.unlocked ≡ false
  pub token : s.jwt ≡ none
  pub user : s.app.user ≡ none
  pub status : s.app.status ≡ unauthenticated
  pub home : (auth_guard s false).1 ≡ false
  pub setup : (auth_guard s true).1 ≡ false

-- After either logout the session is wiped: no vault key, no token, no user, and authGuard lets
-- no page of the drive be activated.
pub logout-IsWiped : (s : Session) → IsWiped (logout s) × IsWiped (logout_global s)
unfolding logout logout_global auth_guard
logout-IsWiped s = ground arith

-- A failed request either logs out (401, unless it carries BYPASS_LOGOUT or goes to a public
-- share), or locks the app and nothing else (403, unless it goes to a public share), or leaves
-- the session as it is, and only for one of those exceptions or for another status.
pub error_interceptor_cases :
    (s : Session) (f : Failed)
    → ((f.status ≡ 401)
        × (f.bypass ≡ false)
        × (f.public_share ≡ false)
        × (error_interceptor s f ≡ logout s))
      ⊎ ((f.status ≡ 403)
          × (f.public_share ≡ false)
          × (error_interceptor s f ≡ record s { app = App.lock s.app }))
      ⊎ ((error_interceptor s f ≡ s)
          × ((f.public_share ≡ true)
              ⊎ ((f.status ≡ 401) × (f.bypass ≡ true))
              ⊎ ((f.status ≢ 401) × (f.status ≢ 403))))
unfolding error_interceptor
error_interceptor_cases s f = ground arith

-- A request goes out as it was, to Google's own hosts or without a session token; every other
-- request carries the token, and credentials.
pub jwt_interceptor_lem :
    (s : Session) (req : Outgoing)
    → ((jwt_interceptor s req ≡ req) × ((req.to_google_apis ≡ true) ⊎ (s.jwt ≡ none)))
      ⊎ ((token : Text) × (s.jwt ≡ some token)
          × (req.to_google_apis ≡ false)
          × ((jwt_interceptor s req).authorization ≡ some token)
          × ((jwt_interceptor s req).with_credentials ≡ true))
unfolding jwt_interceptor
jwt_interceptor_lem s req = elim (Option-cases s.jwt) [
  | inl missing ↦ inl (ground arith)
  | inr (token, given) ↦ elim (Bool-cases req.to_google_apis) [
    | inl google ↦ inl (ground arith)
    | inr ours ↦ inr (token, given, ours, ground arith, ground arith)
  ]
]

-- A page of the drive is activated unless the user is unauthenticated or onboarding; the setup
-- page is activated only for an onboarding user, or while the session is loading.
pub auth_guard_iff :
    (s : Session)
    → (((auth_guard s false).1 ≡ true)
        ↔ ((s.app.status ≢ unauthenticated) × (s.app.status ≢ onboarding)))
      × (((auth_guard s true).1 ≡ true) ↔ ((s.app.status ≡ onboarding) ⊎ (s.app.status ≡ loading)))
unfolding auth_guard
auth_guard_iff s = ground arith

-- Behind vaultGuard a session is shown as unlocked only if its vault is unlocked, and a drive that
-- was locked has no key, shows no decrypted name, is at its root and is shown as locked.
pub vault_guard-unlocked :
    (s : Session)
    → (((vault_guard s).0.app.status ≢ unlocked) ⊎ (s.vault.unlocked ≡ true))
      × ((lock_drive s).vault.vault_key ≡ none)
      × ((vault_guard (lock_drive s)).0.app.status ≡ locked)
      × AreHidden (lock_drive s).drive.files
      × ((lock_drive s).drive.current ≡ none)
unfolding vault_guard lock_drive
vault_guard-unlocked s =
    let (names, root) = navigate_to-clear_decrypted_names s.drive in
    (ground arith, ground arith, ground arith, names, root)
