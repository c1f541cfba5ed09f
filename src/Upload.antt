-- ===== src/Upload.antt =====
-- Uploads (frontend/src/app/features/drive/upload).
pub mod Engine
pub mod Queue
pub mod Paths
pub mod Folders
pub mod Drop
pub mod Batch
mod Tests
