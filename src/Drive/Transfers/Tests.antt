-- ===== src/Drive/Transfers/Tests.antt =====
-- Transfers and groups at concrete inputs.
use text.Mathlib.Text.{◌==◌ as str_eq}
use text.Mathlib.TextEquality.{eq_iff}
use save_box.Prelude.{Bool-cases, inl, inr, arith, ℕ, ◌≡◌, refl, false, some, none, [], ◌∷◌, String}
use save_box.Drive.Transfers.{
  Status, TransferItem, TransferGroup, State, upload, cancel_transfer, cancel_transfer_group,
  cancel_all, pause_transfer, record_cancelled_transfer, record_in_group, update_transfer,
  add_transfer, pause_transfer_group, pause_all, clear_completed_transfers, create_transfer_group,
}
use save_box.Drive.Transfers.View.{
  GroupStatus, to_transfer_group_view, status_of, clear_transfer_group,
}
use save_box.Drive.Transfers.Settle.{IsKnown}
use save_box.Drive.Transfers.Ended.{IsUnique, cancel_transfer_group-can_clear}
use save_box.Drive.Transfers.{includes, find_group}
use save_box.Prelude.{true}

program : Unit {0}
unfolding to_transfer_group_view status_of cancel_transfer_group cancel_transfer cancel_all
    pause_transfer record_cancelled_transfer record_in_group update_transfer clear_transfer_group
    add_transfer pause_transfer_group pause_all clear_completed_transfers create_transfer_group
program = tt

abbrev item : String → Status → ℕ → TransferItem
item id status bytes = record {
  id = id;
  file_name = "a.txt";
  kind = upload;
  status = status;
  progress = 0;
  group_id = some "g";
  is_recovery = false;
  pending_data = none;
  bytes_transferred = some bytes;
  total_bytes = some 100;
}

abbrev empty : State
empty = record {
  transfers = [];
  groups = [];
  active_uploads = [];
  active_downloads = [];
  paused = [];
  cancelled = [];
  deleted = [];
}

abbrev two : State
two = add_transfer (item "a" Status.success 100) (
    add_transfer (item "b" Status.processing 40) (create_transfer_group "g" ("a" ∷ "b" ∷ []) empty))

abbrev group : TransferGroup
group = record {
  id = "g";
  transfer_ids = "a" ∷ "b" ∷ [];
  cancelled_transfer_ids = [];
  cancelled_bytes = [];
}

pausing :
    (to_transfer_group_view (pause_transfer_group "g" two).transfers group).status
    ≡ GroupStatus.queued
unfolding program
pausing = refl

clearing : clear_transfer_group "g" (cancel_transfer_group "g" two) ≡ empty
unfolding program
clearing = refl

known : (id : String) → includes group.transfer_ids id ≡ true → IsKnown two group id
unfolding program
known id listed = elim (Bool-cases (str_eq id "a")) [
  | inl first ↦
      let at : id ≡ "a" = (eq_iff id "a").0 first in
      rw at (inr (item "a" Status.success 100, refl, refl))
  | inr other ↦ elim (Bool-cases (str_eq id "b")) [
    | inl second ↦
        let at : id ≡ "b" = (eq_iff id "b").0 second in
        rw at (inr (item "b" Status.processing 40, refl, refl))
    | inr away ↦ cc (rw (other, away) at listed)
  ]
]

unique : IsUnique two.transfers
unfolding program
unique id = elim (Bool-cases (str_eq "a" id)) [
  | inl first ↦ let at : "a" ≡ id = (eq_iff "a" id).0 first in rw⁻¹ at (omega arith)
  | inr other ↦ elim (Bool-cases (str_eq "b" id)) [
    | inl second ↦ rw (other, second) (omega arith)
    | inr away ↦ rw (other, away) (omega arith)
  ]
]

cancel_transfer_group-can_clear_example :
    (h : TransferGroup) × (find_group "g" (cancel_transfer_group "g" two) ≡ some h)
    × (h.transfer_ids ≡ group.transfer_ids)
    × ((to_transfer_group_view (cancel_transfer_group "g" two).transfers h).can_clear ≡ true)
unfolding program
cancel_transfer_group-can_clear_example =
    cancel_transfer_group-can_clear "g" two group refl refl (refl, (refl, tt)) known unique
