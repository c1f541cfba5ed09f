-- ===== src/Session/Gaps.antt =====
-- States that the session reaches and that its comments rule out.
use save_box.Prelude.{◌≡◌, ◌≢◌, true, false, some, none, arith, ok, throw, Result}
use save_box.Prelude.Words.{Bytes}
use save_box.Crypto.Platform.{Platform}
use save_box.Session.App.{unauthenticated, unlocked, is_authenticated}
use save_box.Session.Token.{Text, Decoders}
use save_box.Session.Vault.{Browser, Fetched, opened_key, unlock_vault}
use save_box.Session.State.{Session, logout}
use save_box.Session.Auth.{HttpError, restore_session, login_with_credentials, update_profile}
use save_box.Session.Guards.{auth_guard}
use save_box.Session.Pages.{Pending, finish_unlock}

module _ (d : Decoders) where
  -- If an unauthenticated login is answered by 403, the session counts as authenticated and authGuard
  -- activates the drive, with the token and the user that it had before.
  pub login_with_credentials-403 :
      (s : Session) (e : HttpError)
      → s.app.status ≡ unauthenticated
      → e.status ≡ 403
      → (is_authenticated (login_with_credentials d s (throw e)).0.app ≡ true)
        × ((auth_guard (login_with_credentials d s (throw e)).0 false).1 ≡ true)
        × ((login_with_credentials d s (throw e)).0.jwt ≡ s.jwt)
        × ((login_with_credentials d s (throw e)).0.app.user ≡ s.app.user)
  unfolding login_with_credentials auth_guard is_authenticated
  login_with_credentials-403 s e h k = ground arith

  -- A session that cannot be restored is unauthenticated and has no user, but keeps its token and its
  -- vault, whatever the failure.
  pub restore_session-failed :
      (s : Session) (e : HttpError)
      → ((restore_session d s (throw e)).0.app.status ≡ unauthenticated)
        × ((restore_session d s (throw e)).0.app.user ≡ none)
        × ((restore_session d s (throw e)).0.jwt ≡ s.jwt)
        × ((restore_session d s (throw e)).0.vault ≡ s.vault)
  unfolding restore_session
  restore_session-failed s e = ground arith

  -- After a profile has been stored the session is not shown as unlocked, though its vault is as
  -- before.
  pub update_profile-status :
      (s : Session) (refresh : Result HttpError Text)
      → ((update_profile d s (ok tt) refresh).0.app.status ≢ unlocked)
        × ((update_profile d s (ok tt) refresh).0.vault ≡ s.vault)
  unfolding update_profile
  update_profile-status s refresh = ground arith

-- An unlock whose answer opens the key after a logout leaves the key in RAM and the session shown as
-- unlocked, with no user and no token.
pub finish_unlock-logout :
    (p : Platform) (b : Browser) (s : Session) (pending : Pending) (reply : Fetched) (key : Bytes)
    → opened_key p b pending.user pending.phrase reply ≡ ok key
    → ((finish_unlock p b (logout s) pending reply).vault.vault_key ≡ some key)
      × ((finish_unlock p b (logout s) pending reply).app.status ≡ unlocked)
      × ((finish_unlock p b (logout s) pending reply).app.user ≡ none)
      × ((finish_unlock p b (logout s) pending reply).jwt ≡ none)
unfolding finish_unlock unlock_vault logout
finish_unlock-logout p b s pending reply key h = ground arith
