-- ===== src/Upload/Batch/Types.antt =====
-- The data of a batch upload (frontend/src/app/features/drive/upload/upload.models.ts), and what the batch
-- coordinator calls, as a record of functions.
use save_box.Prelude.{ℕ, Bool, Option, List, String, Result}
use save_box.Upload.Engine.{Provider}

abbrev pub batch_window_size : ℕ
batch_window_size = 5

abbrev pub local_upload_concurrency : ℕ
local_upload_concurrency = 2

abbrev pub google_upload_concurrency : ℕ
google_upload_concurrency = 1

-- `cancelled` is what `shouldCancel()` returns when the candidate's turn to be prepared comes.
pub record Candidate : Type 0 where
  pub transfer_id : String
  pub folder_id : Option ℕ
  pub provider : Provider
  pub cancelled : Bool

pub record Prepared : Type 0 where
  pub encrypted_name : String
  pub name_hash : String
  pub encrypted_fdk : String
  pub encrypted_size : ℕ
  pub total_chunks : ℕ

pub record PreparedCandidate : Type 0 where
  pub candidate : Candidate
  pub prepared : Prepared

pub record RequestItem : Type 0 where
  pub folder_id : Option ℕ
  pub encrypted_name : String
  pub name_hash : String
  pub encrypted_fdk : String
  pub size_bytes : ℕ
  pub total_chunks : ℕ
  pub storage_provider : Provider

-- A missing id is 0, a missing text `none`, and another provider `none`.
pub record ResponseItem : Type 0 where
  pub file_id : ℕ
  pub name_hash : String
  pub storage_provider : Option Provider
  pub access_token : Option String
  pub root_folder_id : Option String

-- A prepared candidate with what `byHash.get(...)` finds for it.
abbrev pub Task : Type 0
Task = PreparedCandidate × Option ResponseItem

pub data Error : Type 0 where
  http : ℕ → Error
  failed duplicate_names inconsistent wrong_provider invalid_provider incomplete_google
        undefined_init :
      Error

pub data Status : Type 0 where
  success paused error : Status

pub record Report : Type 0 where
  pub transfer_id : String
  pub status : Status

-- The summary, the calls of `onInitialized`, and those of `onResult`, the last one first.
pub record State : Type 0 where
  pub total : ℕ
  pub succeeded : ℕ
  pub paused_count : ℕ
  pub failed_count : ℕ
  pub initialized : List Task
  pub reports : List Report

-- The order in which the tasks of one window end: in either queue, and between the two.
pub record Schedule : Type 0 where
  pub local_picks : ℕ → ℕ
  pub google_picks : ℕ → ℕ
  pub turns : ℕ → Bool

pub record Client : Type 0 where
  pub prepare_upload : Candidate → Result Error Prepared
  pub batch_init_uploads : List RequestItem → Result Error (List ResponseItem)
  -- `ok true` is a paused upload
  pub execute : PreparedCandidate → ResponseItem → Result Error Bool
  pub schedule : ℕ → Schedule
