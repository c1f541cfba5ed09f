-- ===== src/Drive.antt =====
-- The drive's state (frontend/src/app/features/drive/state).
pub mod Files
pub mod Navigation
pub mod Download
pub mod Transfers
pub mod Uploads
pub mod Items
pub mod Pinned
mod Tests
