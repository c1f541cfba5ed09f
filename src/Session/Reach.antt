-- ===== src/Session/Reach.antt =====
-- The reachable states of a session: any handler may run at any time, the answers to an unlock and to a setup
-- included.
use save_box.Prelude.{◌≡◌, ◌≢◌, false, Option, none, inr, String, Result, ok, throw, arith, ◌⊎◌}
use save_box.Prelude.Words.{Bytes}
use save_box.Crypto.Platform.{Platform}
use save_box.Session.App.{UserInfo}
use save_box.Session.Token.{Text, Decoders}
use save_box.Session.Vault
use save_box.Session.Vault.{Vault, Browser, Fetched, unlock_vault}
use save_box.Session.State.{Session, logout, logout_global}
use save_box.Session.Interceptors.{Failed, error_interceptor}
use save_box.Session.Auth.{
  HttpError, restore_session, handle_oauth_callback, login_with_credentials, update_profile,
  link_google_drive,
}
use save_box.Session.Guards.{vault_guard}
use save_box.Session.Pages.{
  Pending, finish_unlock, begin_setup, answer_setup, finish_setup, lock_drive,
}

-- What every handler keeps: an unlocked vault has its key, and a user has a token.
pub record IsConsistent (s : Session) : Type 0 where
  pub keyed : (s.vault.unlocked ≡ false) ⊎ (s.vault.vault_key ≢ none)
  pub tokened : (s.app.user ≡ none) ⊎ (s.jwt ≢ none)

module _ (p : Platform) (b : Browser) (d : Decoders) where
  -- One handler, or one part of a handler between its waits: `unlock` ends with whatever the handler read when
  -- it began, and a setup has three parts.
  pub data Step (s : Session) : Session → Type 0 where
    restore : (reply : Result HttpError Text) → Step s (restore_session d s reply).0
    callback :
        (id_token state error : Option String) (reply : Result HttpError Text)
        → Step s (handle_oauth_callback d s id_token state error reply)
    login : (reply : Result HttpError Text) → Step s (login_with_credentials d s reply).0
    profile :
        (stored : Result HttpError (Unit {0})) (refresh : Result HttpError Text)
        → Step s (update_profile d s stored refresh).0
    link : (reply : Result HttpError (Unit {0})) → Step s (link_google_drive s reply)
    leave : Step s (logout s)
    leave_all : Step s (logout_global s)
    request_fails : (f : Failed) → Step s (error_interceptor s f)
    guard : Step s (vault_guard s).0
    unlock : (pending : Pending) (reply : Fetched) → Step s (finish_unlock p b s pending reply)
    setup : (pending : Pending) (fresh_key : Bytes) → Step s (begin_setup p b s pending fresh_key)
    setup_stored : Step s (answer_setup s (ok tt))
    setup_failed : (e : Vault.Error) → Step s (answer_setup s (throw e))
    setup_refreshed : (refresh : Result HttpError Text) → Step s (finish_setup d s refresh)
    lock : Step s (lock_drive s)

  pub data Reach (s : Session) : Session → Type 0 where
    here : Reach s s
    next : {t u : Session} → Reach s t → Step t u → Reach s u

  -- No setup's post is answered with a success when the vault has been locked meanwhile.
  abbrev pub IsTimely : {s t : Session} → Step s t → Type 0
  IsTimely {s} setup_stored = s.vault.vault_key ≢ none
  IsTimely _ = Unit

  abbrev pub AreTimely : {s t : Session} → Reach s t → Type 0
  AreTimely here = Unit
  AreTimely (next steps step) = AreTimely steps × IsTimely step

  unlock_vault-keyed :
      (v : Vault) (user : Option UserInfo) (phrase : String) (reply : Fetched)
      → (v.unlocked ≡ false) ⊎ (v.vault_key ≢ none)
      → ((unlock_vault p b v user phrase reply).0.unlocked ≡ false)
        ⊎ ((unlock_vault p b v user phrase reply).0.vault_key ≢ none)
  unfolding unlock_vault
  unlock_vault-keyed v user phrase reply h = ground arith

  Step-IsConsistent :
      {s t : Session} (step : Step s t) → IsTimely step → IsConsistent s → IsConsistent t
  unfolding restore_session handle_oauth_callback login_with_credentials update_profile
      link_google_drive logout logout_global error_interceptor vault_guard finish_unlock begin_setup
      answer_setup finish_setup lock_drive
  Step-IsConsistent (restore reply) timely c = ground arith
  Step-IsConsistent (callback id_token state error reply) timely c = ground arith
  Step-IsConsistent (login reply) timely c = ground arith
  Step-IsConsistent (profile stored refresh) timely c = ground arith
  Step-IsConsistent (link reply) timely c = ground arith
  Step-IsConsistent leave timely c = ground arith
  Step-IsConsistent leave_all timely c = ground arith
  Step-IsConsistent (request_fails f) timely c = ground arith
  Step-IsConsistent guard timely c = ground arith
  Step-IsConsistent {s} (unlock pending reply) timely c =
      ground (arith, unlock_vault-keyed s.vault pending.user pending.phrase reply c.keyed)
  Step-IsConsistent (setup pending fresh_key) timely c = ground arith
  Step-IsConsistent setup_stored kept c = record { keyed = inr kept; tokened = c.tokened }
  Step-IsConsistent (setup_failed e) timely c = ground arith
  Step-IsConsistent (setup_refreshed refresh) timely c = ground arith
  Step-IsConsistent lock timely c = ground arith

  -- From a consistent session every session is consistent that is reached by an interleaving of the handlers
  -- in which the vault still has a key whenever a setup's post is answered with a success: an unlocked vault
  -- has its key, and a session with a user has a token.
  pub Reach-IsConsistent :
      {s t : Session} → IsConsistent s → (steps : Reach s t) → AreTimely steps → IsConsistent t
  Reach-IsConsistent c here timely = c
  Reach-IsConsistent c (next steps step) (before, now) =
      Step-IsConsistent step now (Reach-IsConsistent c steps before)
