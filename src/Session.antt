-- ===== src/Session.antt =====
-- The session: core/state, core/auth, core/crypto/crypto.service.ts, core/interceptors and the
-- guards of the frontend (frontend/src/app/core), with the pages that lock and unlock the vault.
pub mod App
pub mod Token
pub mod Vault
pub mod State
pub mod Interceptors
pub mod Auth
pub mod Guards
pub mod Pages
pub mod Reach
pub mod Privacy
pub mod Gaps
mod Tests
