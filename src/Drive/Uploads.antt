-- ===== src/Drive/Uploads.antt =====
-- The uploads of DriveStore (frontend/src/app/features/drive/state/drive.store.ts) that are no batch:
-- `runUploadLoop`, `_uploadSingleFile`, `resumeUpload` and `recoverUpload`. How `execute` of the engine ends is
-- an argument; the reports of progress and what is only printed are left out.
pub mod Recovery
pub mod Outcome
pub mod Selection
mod Tests
use text.Mathlib.Text.{◌==◌ as str_eq}
use Prim.Native.String.{◌++◌ as str_append}
use save_box.Prelude.{
  ℕ, Bool, true, false, not, Option, some, none, List, [], ◌∷◌, ◌++◌, String, Result, ok, throw,
  ◌>>=◌, ◌>>◌, or_throw, length, select, ltb, ◌==◌, if◌then◌else◌,
}
use save_box.Prelude.Words.{Bytes}
use save_box.Crypto.Platform.{nonce_size, Platform}
use save_box.Crypto.Kasumi
use save_box.Crypto.Kasumi.{encrypt_file}
use save_box.Session.Vault.{Vault, Browser, shown_name}
use save_box.Upload.Engine.{Error, paused_by_error}
use save_box.Drive.Transfers.{
  State, TransferItem, ActiveUpload, processing, success, error, set_paused, update_transfer,
  remove, includes,
}

abbrev pub set_processing : TransferItem → TransferItem
set_processing t = record t { status = processing }

abbrev pub set_success : TransferItem → TransferItem
set_success t = record t { status = success; progress = 100 }

abbrev pub set_error : TransferItem → TransferItem
set_error t = record t { status = error }

abbrev pub is_pause : Error → Bool
is_pause e = elim e [ paused_by_error ↦ true | _ ↦ false ]

abbrev pub without_upload : String → State → State
without_upload id s = record s {
  active_uploads = select (λ u. not (str_eq u.upload_id id)) s.active_uploads;
}

-- `activeUploads.set`
abbrev pub with_upload : String → String → State → State
with_upload id transfer s =
    let cleared = without_upload id s in
    record cleared {
      active_uploads =
          cleared.active_uploads ++ record { upload_id = id; transfer_id = transfer } ∷ [];
    }

-- With what it throws. `ok true` stands for a paused run.
unfoldable pub run_upload_loop :
    String → String → Bool → Result Error Bool → State → State × Option Error
run_upload_loop id transfer hidden (throw e) s = (s, some e)
run_upload_loop id transfer hidden (ok true) s = (update_transfer transfer set_paused s, none)
run_upload_loop id transfer hidden (ok false) s =
    let freed = without_upload id s in
    (if hidden then freed else update_transfer transfer set_success freed, none)

abbrev pub failed_upload : String → String → Error → State → State
failed_upload id transfer e s =
    if is_pause e then s else without_upload id (update_transfer transfer set_error s)

abbrev pub upload_suffix : Bool → String
upload_suffix true = "_proxy"
upload_suffix false = "_original"

-- `initialised` tells the error of the preparation or of the first request, if there is one.
unfoldable pub upload_single_file :
    String → Bool → Option Error → Result Error Bool → State → State × Option Error
unfolding run_upload_loop
upload_single_file transfer hidden initialised result s =
    let id = str_append transfer (upload_suffix hidden) in
    let begun = update_transfer transfer set_processing s in
    elim initialised [
      | some e ↦ (failed_upload id transfer e begun, some e)
      | none ↦
          let (after, thrown) =
            run_upload_loop id transfer hidden result (with_upload id transfer begun) in
          elim thrown [
            | none ↦ (after, none)
            | some e ↦ (failed_upload id transfer e after, some e)
          ]
    ]

-- The loop of `resumeUpload`, with the result of each run and the flag of each upload.
unfoldable pub resume_loop :
    (String → Result Error Bool) → (String → Bool) → String → List ActiveUpload → State → State
unfolding run_upload_loop
resume_loop results hidden transfer [] s = s
resume_loop results hidden transfer (u ∷ uploads) s =
    let (after, thrown) =
      run_upload_loop u.upload_id transfer (hidden u.upload_id) (results u.upload_id) s in
    let rest = resume_loop results hidden transfer uploads after in
    if includes s.paused transfer then s else elim thrown [
      | none ↦ rest
      | some e ↦ if is_pause e then after else update_transfer transfer set_error after
    ]

unfoldable pub resume_upload :
    (String → Result Error Bool) → (String → Bool) → String → State → State
unfolding resume_loop
resume_upload results hidden transfer s =
    let unpaused : State = record s { paused = remove transfer s.paused } in
    elim (select (λ u. str_eq u.transfer_id transfer) s.active_uploads) [
      | [] ↦ s
      | u ∷ uploads ↦
          resume_loop results hidden transfer (u ∷ uploads)
            (update_transfer transfer set_processing unpaused)
    ]

-- What `recoverUpload` does to the transfers, once the file is encrypted again.
unfoldable pub recover_transfer : String → Result Error Bool → State → State
unfolding run_upload_loop
recover_transfer transfer result s =
    let id = str_append transfer "_recovery" in
    let begun = update_transfer transfer set_processing s in
    let unpaused : State = record begun { paused = remove transfer begun.paused } in
    let (after, thrown) =
      run_upload_loop id transfer false result (with_upload id transfer unpaused) in
    elim thrown [
      | none ↦ update_transfer transfer (λ t. record t { is_recovery = false }) after
      | some e ↦ if is_pause e then after else update_transfer transfer set_error after
    ]

pub data RecoveryError : Type 0 where
  no_key library : RecoveryError
  kasumi : Kasumi.Error → RecoveryError

-- `baseNonce`: the first 24 bytes that the server holds, if it holds chunks and answers with as many.
unfoldable pub recovered_nonce : ℕ → Option Bytes → Option Bytes
recovered_nonce uploaded_chunks none = none
recovered_nonce uploaded_chunks (some start) =
    if ltb 0 uploaded_chunks
    then (if length start == nonce_size then some start else none)
    else none

abbrev pub nonce_or : Bytes → Option Bytes → Bytes
nonce_or fresh none = fresh
nonce_or fresh (some nonce) = nonce

abbrev pub has_key : Bool → Result RecoveryError (Unit {0})
has_key true = throw no_key
has_key false = ok tt

abbrev lift : {A : Type 0} → Result Kasumi.Error A → Result RecoveryError A
lift (ok a) = ok a
lift (throw e) = throw (kasumi e)

module _ (p : Platform) where
  -- The blob that `recoverUpload` encrypts again; `fresh` is the nonce that encryptFile draws.
  unfoldable pub recover_blob :
      Browser → Vault → String → ℕ → Option Bytes → Bytes → Bytes → Result RecoveryError Bytes
  unfolding recovered_nonce
  recover_blob b v encrypted_fdk uploaded_chunks start fresh file = do
    let text = shown_name p v encrypted_fdk
    has_key (str_eq text "")
    fdk ← or_throw library (b.atob text)
    lift (encrypt_file p file fdk (nonce_or fresh (recovered_nonce uploaded_chunks start)) none)
