-- ===== src/Upload/Batch.antt =====
-- UploadBatchCoordinatorService (frontend/src/app/features/drive/upload/upload-batch-coordinator.service.ts).
pub mod Types
pub mod Response
pub mod Process
pub mod Validation
pub mod Account
pub mod Tally
