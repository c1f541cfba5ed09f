-- ===== src/Drive/Transfers.antt =====
-- The transfers of DriveStore and their groups (frontend/src/app/features/drive/state/drive.store.ts). What is
-- only printed (messages, dates, speeds) is left out; a missing number is `none`.
pub mod View
pub mod Cancel
pub mod Record
pub mod Settle
pub mod Ended
mod Tests
use text.Mathlib.Text.{◌==◌ as str_eq}
use save_box.Prelude.{
  ℕ, ◌+◌, ◌*◌, ◌-◌, ◌/◌, min, Bool, true, false, not, ◌&&◌, ◌||◌, Option, some, none, List, [], ◌∷◌,
  ◌++◌, map, String, length, ltb, leb, ◌==◌, if◌then◌else◌, select, find_first, any_of, count,
}

pub data Status : Type 0 where
  pending processing paused success error : Status

pub data Kind : Type 0 where
  upload download : Kind

-- `pending_data` is the id of the file whose upload can be recovered.
pub record TransferItem : Type 0 where
  pub id : String
  pub file_name : String
  pub kind : Kind
  pub status : Status
  pub progress : ℕ
  pub group_id : Option String
  pub is_recovery : Bool
  pub pending_data : Option ℕ
  pub bytes_transferred : Option ℕ
  pub total_bytes : Option ℕ

pub record CancelledBytes : Type 0 where
  pub transfer_id : String
  pub total_bytes : ℕ
  pub transferred_bytes : ℕ

pub record TransferGroup : Type 0 where
  pub id : String
  pub transfer_ids : List String
  pub cancelled_transfer_ids : List String
  pub cancelled_bytes : List CancelledBytes

-- An entry of `activeUploads`.
pub record ActiveUpload : Type 0 where
  pub upload_id : String
  pub transfer_id : String

-- `deleted` logs the requests that a cancelled recovery sends for a pending upload.
pub record State : Type 0 where
  pub transfers : List TransferItem
  pub groups : List TransferGroup
  pub active_uploads : List ActiveUpload
  pub active_downloads : List String
  pub paused : List String
  pub cancelled : List String
  pub deleted : List ℕ

abbrev pub has_id : String → TransferItem → Bool
has_id id t = str_eq t.id id

abbrev pub includes : List String → String → Bool
includes ids id = any_of (λ i. str_eq id i) ids

abbrev pub remove : String → List String → List String
remove id = select (λ i. not (str_eq i id))

unfoldable pub add_transfer : TransferItem → State → State
add_transfer t s = record s { transfers = t ∷ s.transfers }

-- A partial update is a function on the item.
unfoldable pub update_transfer : String → (TransferItem → TransferItem) → State → State
update_transfer id update s = record s {
  transfers = map (λ t. if has_id id t then update t else t) s.transfers;
}

abbrev pub is_success : TransferItem → Bool
is_success t = elim t.status [ success ↦ true | _ ↦ false ]

abbrev pub is_error : TransferItem → Bool
is_error t = elim t.status [ error ↦ true | _ ↦ false ]

abbrev pub is_paused : TransferItem → Bool
is_paused t = elim t.status [ paused ↦ true | _ ↦ false ]

abbrev pub is_active : TransferItem → Bool
is_active t = elim t.status [ processing ↦ true | pending ↦ true | _ ↦ false ]

abbrev pub is_done : TransferItem → Bool
is_done t = elim t.status [ success ↦ true | error ↦ true | _ ↦ false ]

abbrev pub grouped_ids : List TransferGroup → List String
grouped_ids [] = []
grouped_ids (g ∷ groups) = g.transfer_ids ++ grouped_ids groups

unfoldable pub clear_completed_transfers : State → State
clear_completed_transfers s = record s {
  transfers = select (λ t. includes (grouped_ids s.groups) t.id || not (is_done t)) s.transfers;
}

-- `id` is fresh.
unfoldable pub create_transfer_group : String → List String → State → State
create_transfer_group id transfer_ids s = record s {
  groups =
      s.groups
      ++ (record {
        id = id;
        transfer_ids = transfer_ids;
        cancelled_transfer_ids = [];
        cancelled_bytes = [];
      })
        ∷ [];
}

abbrev pub or_zero : Option ℕ → ℕ
or_zero none = 0
or_zero (some n) = n

abbrev pub in_group : Option String → TransferGroup → Bool
in_group none g = false
in_group (some id) g = str_eq g.id id

-- A second record of the same transfer changes nothing.
unfoldable pub record_in_group : TransferItem → TransferGroup → TransferGroup
record_in_group t g =
    if not (in_group t.group_id g) || includes g.cancelled_transfer_ids t.id then g else record g {
      cancelled_transfer_ids = g.cancelled_transfer_ids ++ t.id ∷ [];
      cancelled_bytes =
          (record {
            transfer_id = t.id;
            total_bytes = or_zero t.total_bytes;
            transferred_bytes = or_zero t.bytes_transferred;
          })
          ∷ g.cancelled_bytes;
    }

-- The empty id is no group.
unfoldable pub record_cancelled_transfer : TransferItem → State → State
unfolding record_in_group
record_cancelled_transfer t s = elim t.group_id [
  | none ↦ s
  | some id ↦ if str_eq id "" then s else record s { groups = map (record_in_group t) s.groups }
]

abbrev pub set_paused : TransferItem → TransferItem
set_paused t = record t { status = paused }

unfoldable pub pause_transfer : String → State → State
unfolding update_transfer
pause_transfer id s = update_transfer id set_paused (record s { paused = id ∷ s.paused })

abbrev pub recorded : Option TransferItem → State → State
recorded none s = s
recorded (some t) s = record_cancelled_transfer t s

abbrev pub deleted_pending : Option TransferItem → List ℕ → List ℕ
deleted_pending none ids = ids
deleted_pending (some t) ids = elim t.pending_data [
  | none ↦ ids
  | some file ↦ if t.is_recovery then file ∷ ids else ids
]

-- The requests for a pending upload are sent, and a failure of theirs is ignored.
unfoldable pub cancel_transfer : String → State → State
unfolding pause_transfer record_cancelled_transfer
cancel_transfer id s =
    let s' = pause_transfer id (record s { cancelled = id ∷ s.cancelled }) in
    let transfer = find_first (has_id id) s'.transfers in
    let r = recorded transfer s' in
    record r {
      deleted = deleted_pending transfer r.deleted;
      transfers = select (λ t. not (has_id id t)) r.transfers;
      active_uploads =
          select (λ u. not (str_eq u.transfer_id id || str_eq u.upload_id id)) r.active_uploads;
      active_downloads = remove id r.active_downloads;
      paused = remove id r.paused;
      cancelled = remove id r.cancelled;
    }

abbrev pub find_group : String → State → Option TransferGroup
find_group id s = find_first (λ g. str_eq g.id id) s.groups

abbrev pub is_running : Option TransferItem → Bool
is_running none = false
is_running (some t) = is_active t

unfoldable pub pause_all : List String → State → State
unfolding pause_transfer
pause_all [] s = s
pause_all (id ∷ ids) s =
    let running = is_running (find_first (has_id id) s.transfers) in
    pause_all ids (if running then pause_transfer id s else s)

unfoldable pub pause_transfer_group : String → State → State
unfolding pause_all
pause_transfer_group id s = elim (find_group id s) [
  | none ↦ s
  | some g ↦ pause_all g.transfer_ids s
]

abbrev pub is_open : Option TransferItem → Bool
is_open none = false
is_open (some t) = not (is_done t)

unfoldable pub cancel_all : List String → State → State
unfolding cancel_transfer
cancel_all [] s = s
cancel_all (id ∷ ids) s =
    let open_now = is_open (find_first (has_id id) s.transfers) in
    cancel_all ids (if open_now then cancel_transfer id s else s)

unfoldable pub cancel_transfer_group : String → State → State
unfolding cancel_all
cancel_transfer_group id s = elim (find_group id s) [
  | none ↦ s
  | some g ↦ cancel_all g.transfer_ids s
]
