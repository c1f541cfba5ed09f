-- ===== src/Drive/Uploads/Tests.antt =====
-- Uploads at concrete inputs, over the toy platform.
use text.Mathlib.Text.{◌==◌ as str_eq}
use save_box.Prelude.{
  ℕ, ◌≡◌, refl, arith, Bool, true, false, Option, some, none, [], ◌∷◌, ◌++◌, String, ok, throw,
  replicate, select, count, List, ◌==◌, flatten,
}
use save_box.Prelude.Words.{Bytes, slice}
use save_box.Crypto.Toy.{toy, toy-IsSound}
use save_box.Crypto.Nonce.{derive_chunk_nonce}
use save_box.Crypto.Kasumi.{encrypt_file}
use save_box.Session.Vault.{Vault, Browser, shown_name}
use save_box.Upload.Engine.{upload_local, total_chunks, request_failed}
use save_box.Upload.Engine.Complete.{fetch_all}
use save_box.Drive.Transfers.{State, TransferItem, upload, processing, cancel_transfer}
use save_box.Drive.Uploads.{recover_blob, recover_transfer, upload_single_file}
use save_box.Drive.Uploads.Outcome.{
  has_upload, HaveStatus, status_after, can_resume, thrown_by, upload_single_file-ends,
}
use save_box.Drive.Uploads.Selection.{
  Selected, Call, individual, in_folder, upload_files, upload_folder_candidates,
}
use save_box.Drive.Uploads.Selection.Shares.{uploaded, upload_files-upload_folder_candidates}
use save_box.Drive.Transfers.{has_id}
use save_box.Drive.Uploads.Recovery.{recover_blob-fetch_all}

abbrev base : Bytes
base = replicate 24 7

abbrev fdk : Bytes
fdk = replicate 32 9

abbrev file : Bytes
file = 1 ∷ 2 ∷ 3 ∷ []

abbrev blob : Bytes
blob = base ++ ((3 ∷ replicate 7 0) ++ (replicate 16 206 ++ file))

-- The name stands for itself, and every text for one key.
abbrev browser : Browser
browser = record {
  derive_vault_key = λ phrase salt. none;
  btoa = λ bytes. "k";
  atob = λ text. some fdk;
  trim_lower = λ s. s;
}

abbrev vault : Vault
vault = record { vault_key = none; unlocked = false }

never : ℕ → Bool
never round = false

no_failure : ℕ → Option ℕ
no_failure round = none

program : Unit {0}
unfolding never no_failure toy encrypt_file derive_chunk_nonce shown_name upload_local fetch_all
    recover_blob flatten
program = tt

named : str_eq "k" "" ≡ false
named = refl

recover_blob-fetch_all_example :
    (recover_blob toy browser vault "k" 1 (some (slice blob 0 24)) base file ≡ ok blob)
    × (fetch_all
          ([] ++ (upload_local blob (total_chunks blob) (some []) never no_failure).sent)
          (total_chunks blob)
          0
        ≡ some blob)
unfolding program
recover_blob-fetch_all_example =
    recover_blob-fetch_all toy toy-IsSound browser vault file base fdk base "k" refl refl
      (omega arith) named refl 1 blob [] never no_failure (omega arith) refl tt refl

abbrev with_thumb : Bytes
with_thumb =
    base
    ++ ((3 ∷ replicate 7 0)
        ++ ((75 ∷ 65 ∷ 83 ∷ 50 ∷ 2 ∷ 0 ∷ 0 ∷ 0 ∷ [])
            ++ ((replicate 16 132 ++ (123 ∷ 125 ∷ [])) ++ (replicate 16 206 ++ file))))

abbrev some_metadata : String
some_metadata = "{}"

abbrev pending_upload : TransferItem
pending_upload = record {
  id = "pending_4";
  file_name = "a.txt";
  kind = upload;
  status = processing;
  progress = 0;
  group_id = none;
  is_recovery = true;
  pending_data = some 4;
  bytes_transferred = none;
  total_bytes = none;
}

abbrev waiting : State
waiting = record {
  transfers = pending_upload ∷ [];
  groups = [];
  active_uploads = [];
  active_downloads = [];
  paused = [];
  cancelled = [];
  deleted = [];
}

-- A recovery that is cancelled is deleted on the server; one that has been paused before is not.
cancelled_deletes : (cancel_transfer "pending_4" waiting).deleted ≡ 4 ∷ []
unfolding cancel_transfer
cancelled_deletes = refl

paused_stays :
    (cancel_transfer "pending_4" (recover_transfer "pending_4" (ok true) waiting)).deleted ≡ []
unfolding cancel_transfer recover_transfer
paused_stays = refl

upload_single_file-ends_example :
    (has_upload "pending_4_original"
        (upload_single_file "pending_4" false none (throw (request_failed 500)) waiting).0
      ≡ can_resume (throw (request_failed 500)))
    × HaveStatus (status_after (throw (request_failed 500))) (
        select
          (has_id "pending_4")
          (upload_single_file "pending_4" false none
            (throw (request_failed 500))
            waiting).0.transfers)
    × ((upload_single_file "pending_4" false none (throw (request_failed 500)) waiting).1
        ≡ thrown_by (throw (request_failed 500)))
upload_single_file-ends_example =
    upload_single_file-ends "pending_4" (throw (request_failed 500)) waiting

-- The third of four files is a video to convert.
abbrev is_third : ℕ → Bool
is_third file = file == 3

abbrev named_by : ℕ → String
named_by index = "t"

abbrev any_file : Selected → Bool
any_file s = s.file == 2

-- The upload of the first file would fail; it is part of the batch.
is_first : Selected → Bool
is_first s = s.file == 1

abbrev nested : List Selected
nested = in_folder (some 4) (3 ∷ 2 ∷ [])

upload_files-upload_folder_candidates_example :
    (calls : List Call) × (upload_files true is_third named_by is_first true "g"
        (some 9)
        (1 ∷ 2 ∷ 3 ∷ 4 ∷ [])
      ≡ ok calls)
    × (count any_file (uploaded calls) ≡ count any_file (in_folder (some 9) (1 ∷ 2 ∷ 3 ∷ 4 ∷ [])))
    × (count any_file
          (uploaded (upload_folder_candidates true is_third named_by is_first "g" nested))
        ≡ count any_file nested)
unfolding individual is_first
upload_files-upload_folder_candidates_example =
    upload_files-upload_folder_candidates true is_third named_by is_first any_file "g" (some 9)
      (1 ∷ 2 ∷ 3 ∷ 4 ∷ []) nested refl refl
