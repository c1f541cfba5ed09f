-- ===== src/Drive/Transfers/View.antt =====
-- What the panel shows of a group: `toTransferGroupView` and `clearTransferGroup` of DriveStore
-- (frontend/src/app/features/drive/state/drive.store.ts). The fraction and the time that are left, which
-- are only printed, are left out. Sizes are natural numbers, so that `Math.max(..., 0)` changes nothing.
pub mod Laws
use text.Mathlib.Text.{◌==◌ as str_eq}
use save_box.Prelude.{
  ℕ, ◌+◌, min, Bool, true, false, not, ◌&&◌, ◌||◌, Option, some, none, List, [], ◌∷◌, String,
  length, ltb, leb, ◌==◌, if◌then◌else◌, select, count, find_first, set_of,
}
use save_box.Drive.Transfers.{
  TransferItem, TransferGroup, CancelledBytes, State, has_id, includes, or_zero, find_group,
  is_success, is_error, is_paused, is_active,
}

pub data GroupStatus : Type 0 where
  queued active paused success error partial cancelled : GroupStatus

pub record TransferGroupView : Type 0 where
  pub total_files : ℕ
  pub completed_files : ℕ
  pub failed_files : ℕ
  pub cancelled_files : ℕ
  pub paused_files : ℕ
  pub active_files : ℕ
  pub total_bytes : ℕ
  pub transferred_bytes : ℕ
  pub status : GroupStatus
  pub can_pause : Bool
  pub can_resume : Bool
  pub can_cancel : Bool
  pub can_clear : Bool

-- The entry of `byId`: a later item of the same id replaces an earlier one.
abbrev pub by_id : List TransferItem → String → Option TransferItem
by_id [] id = none
by_id (t ∷ ts) id = elim (by_id ts id) [
  | some later ↦ some later
  | none ↦ if has_id id t then some t else none
]

abbrev pub members_of : List TransferItem → List String → List TransferItem
members_of ts [] = []
members_of ts (id ∷ ids) =
    let rest = members_of ts ids in elim (by_id ts id) [ some t ↦ t ∷ rest | none ↦ rest ]

abbrev pub distinct : List String → List String
distinct = set_of str_eq

abbrev pub sum_by {ℓ} : {A : Type ℓ} → (A → ℕ) → List A → ℕ
sum_by f [] = 0
sum_by f (x ∷ xs) = f x + sum_by f xs

abbrev pub cancelled_entry : TransferGroup → String → Option CancelledBytes
cancelled_entry g id = find_first (λ b. str_eq b.transfer_id id) g.cancelled_bytes

abbrev pub entry_total : Option CancelledBytes → ℕ
entry_total none = 0
entry_total (some b) = b.total_bytes

abbrev pub entry_transferred : Option CancelledBytes → ℕ
entry_transferred none = 0
entry_transferred (some b) = min b.transferred_bytes b.total_bytes

abbrev pub item_total : TransferItem → ℕ
item_total t = or_zero t.total_bytes

abbrev pub item_transferred : TransferItem → ℕ
item_transferred t = min (or_zero t.bytes_transferred) (or_zero t.total_bytes)

-- The chain of tests, on the numbers of files.
unfoldable pub status_of :
    (total completed failed paused_files active_files cancelled_files : ℕ) → GroupStatus
status_of total completed failed paused_files active_files cancelled_files =
    if completed == total
    then success
    else if cancelled_files == total
    then cancelled
    else if leb total (completed + failed + cancelled_files)
    then (if ltb 0 completed || ltb 0 failed
        then (if ltb 0 completed && (ltb 0 failed || ltb 0 cancelled_files)
            then partial
            else if ltb 0 failed
            then error
            else partial)
        else cancelled)
    else if ltb 0 active_files
    then active
    else if paused_files + cancelled_files == total
    then paused
    else queued

unfoldable pub to_transfer_group_view : List TransferItem → TransferGroup → TransferGroupView
unfolding status_of
to_transfer_group_view ts g =
    let members = members_of ts g.transfer_ids in
    let set = distinct g.cancelled_transfer_ids in
    let total = length g.transfer_ids in
    let completed = count is_success members in
    let failed = count is_error members in
    let paused_files = count is_paused members in
    let active_files = count is_active members in
    let all_terminal = leb total (completed + failed + length set) in
    record {
      total_files = total;
      completed_files = completed;
      failed_files = failed;
      cancelled_files = length set;
      paused_files = paused_files;
      active_files = active_files;
      total_bytes =
          sum_by item_total members + sum_by (λ id. entry_total (cancelled_entry g id)) set;
      transferred_bytes =
          sum_by item_transferred members
          + sum_by (λ id. entry_transferred (cancelled_entry g id)) set;
      status = status_of total completed failed paused_files active_files (length set);
      can_pause = ltb 0 active_files;
      can_resume = ltb 0 paused_files && active_files == 0;
      can_cancel = not all_terminal;
      can_clear = all_terminal;
    }

unfoldable pub clear_transfer_group : String → State → State
unfolding to_transfer_group_view
clear_transfer_group id s = elim (find_group id s) [
  | none ↦ s
  | some g ↦
      if (to_transfer_group_view s.transfers g).can_clear
      then record s {
        transfers = select (λ t. not (includes g.transfer_ids t.id)) s.transfers;
        groups = select (λ h. not (str_eq h.id id)) s.groups;
      }
      else s
]
