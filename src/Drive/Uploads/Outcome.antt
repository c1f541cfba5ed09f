-- ===== src/Drive/Uploads/Outcome.antt =====
-- How an upload ends, in the list of transfers and in `activeUploads`.
use text.Mathlib.Text.{◌==◌ as str_eq}
use text.Mathlib.TextEquality.{eq_iff}
use Prim.Native.String.{◌++◌ as str_append}
use save_box.Prelude.{
  ◌≡◌, refl, Bool, true, false, not, Option, some, none, List, [], ◌∷◌, ◌++◌, map, String, Result,
  ok, throw, inl, inr, select, any_of, Bool-cases, if◌then◌else◌,
}
use save_box.Upload.Engine.{Error}
use save_box.Drive.Transfers.{
  State, TransferItem, ActiveUpload, Status, processing, paused, success, error, has_id,
  update_transfer, set_paused,
}
use save_box.Drive.Uploads.{
  set_processing, set_success, set_error, is_pause, with_upload, upload_single_file,
}

abbrev pub has_upload : String → State → Bool
has_upload id s = any_of (λ (u : ActiveUpload). str_eq u.upload_id id) s.active_uploads

-- The status, and whether the upload can be resumed.
abbrev pub status_after : Result Error Bool → Status
status_after (ok true) = paused
status_after (ok false) = success
status_after (throw e) = if is_pause e then processing else error

abbrev pub can_resume : Result Error Bool → Bool
can_resume (ok b) = b
can_resume (throw e) = is_pause e

abbrev pub HaveStatus : Status → List TransferItem → Type 0
HaveStatus st [] = Unit
HaveStatus st (t ∷ ts) = (t.status ≡ st) × HaveStatus st ts

any_of-select :
    {A : Type 0} (test : A → Bool) (xs : List A)
    → any_of test (select (λ x. not (test x)) xs) ≡ false
any_of-select test [] = refl
any_of-select test (x ∷ xs) = elim (Bool-cases (test x)) [
  | inl passes ↦ rw passes (any_of-select test xs)
  | inr fails ↦ rw fails (rw fails (any_of-select test xs))
]

any_of-append :
    {A : Type 0} (test : A → Bool) (xs : List A) (x : A)
    → test x ≡ true
    → any_of test (xs ++ x ∷ []) ≡ true
any_of-append test [] x h = rw h refl
any_of-append test (y ∷ xs) x h = elim (Bool-cases (test y)) [
  | inl passes ↦ rw passes refl
  | inr fails ↦ rw fails (any_of-append test xs x h)
]

-- An update that keeps the id, and sets the status.
HaveStatus-update :
    (id : String) (f : TransferItem → TransferItem) (st : Status) (ts : List TransferItem)
    → ((t : TransferItem) → (f t).id ≡ t.id)
    → ((t : TransferItem) → (f t).status ≡ st)
    → HaveStatus st (select (has_id id) (map (λ t. if has_id id t then f t else t) ts))
HaveStatus-update id f st [] same sets = tt
HaveStatus-update id f st (t ∷ ts) same sets = elim (Bool-cases (has_id id t)) [
  | inl here ↦
      let kept : has_id id (f t) ≡ true = rw (same t) here in
      rw here (rw kept (sets t, HaveStatus-update id f st ts same sets))
  | inr elsewhere ↦ rw elsewhere (rw elsewhere (HaveStatus-update id f st ts same sets))
]

abbrev pub thrown_by : Result Error Bool → Option Error
thrown_by (ok b) = none
thrown_by (throw e) = some e

-- The state in which the engine runs.
begun : String → State → State
unfolding update_transfer
begun transfer s =
    with_upload (str_append transfer "_original") transfer
      (update_transfer transfer set_processing s)

has_upload-begun :
    (transfer : String) (s : State)
    → has_upload (str_append transfer "_original") (begun transfer s) ≡ true
unfolding begun update_transfer
has_upload-begun transfer s =
    any_of-append (λ (u : ActiveUpload). str_eq u.upload_id (str_append transfer "_original")) _ _
      ((eq_iff _ _).1 refl)

HaveStatus-begun :
    (transfer : String) (s : State)
    → HaveStatus processing (select (has_id transfer) (begun transfer s).transfers)
unfolding begun update_transfer
HaveStatus-begun transfer s =
    HaveStatus-update transfer set_processing processing s.transfers (λ t. refl) (λ t. refl)

-- When the preparation and the first request of an upload succeed, then however the engine ends: the upload is
-- left in `activeUploads` just if it was paused, and its transfer has the status paused, success or error,
-- or still processing if the engine stopped with its message for a pause; every error is thrown on.
pub upload_single_file-ends :
    (transfer : String) (result : Result Error Bool) (s : State)
    → (has_upload
          (str_append transfer "_original")
          (upload_single_file transfer false none result s).0
        ≡ can_resume result)
      × HaveStatus
          (status_after result)
          (select (has_id transfer) (upload_single_file transfer false none result s).0.transfers)
      × ((upload_single_file transfer false none result s).1 ≡ thrown_by result)
unfolding upload_single_file update_transfer begun
upload_single_file-ends transfer (ok true) s = (
  has_upload-begun transfer s,
  HaveStatus-update transfer set_paused paused (begun transfer s).transfers (λ t. refl) (λ t. refl),
  refl,
)
upload_single_file-ends transfer (ok false) s = (
  any_of-select (λ (u : ActiveUpload). str_eq u.upload_id (str_append transfer "_original")) _,
  HaveStatus-update transfer set_success success (begun transfer s).transfers (λ t. refl)
      (λ t. refl),
  refl,
)
upload_single_file-ends transfer (throw e) s = elim (Bool-cases (is_pause e)) [
  | inl stopped ↦ rw stopped (has_upload-begun transfer s, HaveStatus-begun transfer s, refl)
  | inr broken ↦ rw broken (
    any_of-select (λ (u : ActiveUpload). str_eq u.upload_id (str_append transfer "_original")) _,
    HaveStatus-update transfer set_error error (begun transfer s).transfers (λ t. refl) (λ t. refl),
    refl,
  )
]
