-- ===== src/Session/Guards.antt =====
-- authGuard (frontend/src/app/core/auth/auth.guard.ts) and vaultGuard
-- (frontend/src/app/core/crypto/vault.guard.ts). A guard may navigate, and lets the route be
-- activated or not.
use save_box.Prelude.{Bool, true, false, some, if◌then◌else◌}
use save_box.Session.App
use save_box.Session.App.{loading, unauthenticated, onboarding, locked, unlocked}
use save_box.Session.State.{Session, login_page, home, setup}

-- `to_setup` says that the url includes "/drive/setup".
unfoldable pub auth_guard : Session → Bool → Session × Bool
auth_guard s to_setup = elim s.app.status [
  | unauthenticated ↦ (record s { page = some login_page }, false)
  | onboarding ↦ if to_setup then (s, true) else (record s { page = some setup }, false)
  | locked ↦ if to_setup then (record s { page = some home }, false) else (s, true)
  | unlocked ↦ if to_setup then (record s { page = some home }, false) else (s, true)
  | loading ↦ (s, true)
]

unfoldable pub vault_guard : Session → Session × Bool
unfolding App.lock
vault_guard s = (if s.vault.unlocked then s else record s { app = App.lock s.app }, true)
