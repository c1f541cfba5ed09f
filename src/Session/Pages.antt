-- ===== src/Session/Pages.antt =====
-- The pages that drive the vault: `onSubmit` of UnlockModalComponent and of SetupComponent, and
-- `lockDrive` of the home page (frontend/src/app/features/drive). A handler that waits is cut at its wait:
-- between `begin_unlock` and `finish_unlock` other handlers may run.
use save_box.Prelude.{none, true, false, Option, some, String, Result, ok, throw}
use save_box.Prelude.Words.{Bytes}
use save_box.Crypto.Platform.{Platform}
use save_box.Drive.Navigation.{navigate_to, clear_decrypted_names}
use save_box.Session.App
use save_box.Session.App.{UserInfo}
use save_box.Session.Token.{Text, Decoders}
use save_box.Session.Vault
use save_box.Session.Vault.{Browser, Fetched, master_key, unlock_vault, lock_vault}
use save_box.Session.State.{Session, home}
use save_box.Session.Interceptors.{error_interceptor}
use save_box.Session.Auth.{HttpError, restore_session}

-- The user that `unlockVault` reads before its first wait.
pub record Pending : Type 0 where
  pub user : Option UserInfo
  pub phrase : String

unfoldable pub begin_unlock : Session → String → Pending
begin_unlock s phrase = record { user = s.app.user; phrase = phrase }

-- A failed request passes through errorInterceptor before its caller sees the error.
abbrev intercepted : Session → Vault.Error → Session
intercepted s (Vault.request_failed status) =
    error_interceptor s (record { status = status; public_share = false; bypass = false })
intercepted s _ = s

module _ (p : Platform) (b : Browser) where
  -- The rest of the handler: the request has been answered.
  unfoldable pub finish_unlock : Session → Pending → Fetched → Session
  unfolding App.unlock error_interceptor
  finish_unlock s pending reply =
      let (v, outcome) = unlock_vault p b s.vault pending.user pending.phrase reply in
      elim outcome [
        | ok _ ↦ record s { vault = v; app = App.unlock s.app }
        | throw e ↦ intercepted s e
      ]

-- `onSubmit` of the setup page, once the phrases have been accepted, is cut at its three waits. Up to the
-- first request the vault gets a random key, which is not given up if something fails from there on.
module _ (p : Platform) (b : Browser) where
  unfoldable pub begin_setup : Session → Pending → Bytes → Session
  begin_setup s pending fresh_key = elim (master_key p b pending.user pending.phrase) [
    | ok _ ↦ record s { vault = record s.vault { vault_key = some fresh_key } }
    | throw _ ↦ s
  ]

-- The answer to the post of the token, or the failure to make one.
unfoldable pub answer_setup : Session → Result Vault.Error (Unit {0}) → Session
unfolding error_interceptor
answer_setup s (ok _) = record s { vault = record s.vault { unlocked = true } }
answer_setup s (throw e) = intercepted s e

-- The answer to the refresh that follows a success; its failure is ignored.
unfoldable pub finish_setup : Decoders → Session → Result HttpError Text → Session
unfolding restore_session App.unlock
finish_setup d s refresh =
    let s' = (restore_session d s refresh).0 in
    record s' { app = App.unlock s'.app; page = some home }

unfoldable pub lock_drive : Session → Session
unfolding lock_vault App.lock navigate_to clear_decrypted_names
lock_drive s = record s {
  vault = lock_vault s.vault;
  drive = navigate_to none (clear_decrypted_names s.drive);
  app = App.lock s.app;
}
