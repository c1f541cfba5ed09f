-- ===== src/Drive/Transfers/View/Laws.antt =====
-- The numbers of a group's view agree with each other and with its status.
use save_box.Prelude.{
  ℕ, ◌+◌, ◌≤◌, ◌≡◌, ◌↔◌, refl, sym, ap, inl, inr, not, Bool, true, false, Option, some, none, List,
  [], ◌∷◌, String, length, leb, if◌then◌else◌, count, arith, Option-cases,
}
use save_box.Drive.Transfers.{
  TransferItem, TransferGroup, is_success, is_error, is_paused, is_active,
}
use save_box.Drive.Transfers.View.{
  GroupStatus, queued, active, paused, success, by_id, members_of, distinct, sum_by,
  cancelled_entry, entry_total, entry_transferred, item_total, item_transferred, status_of,
  to_transfer_group_view,
}

sum_by-le :
    {A : Type 0} (f g : A → ℕ) → ((x : A) → f x ≤ g x) → (xs : List A) → sum_by f xs ≤ sum_by g xs
sum_by-le f g below [] = omega arith
sum_by-le f g below (x ∷ xs) = omega (arith, below x, sum_by-le f g below xs)

entry-le : (b : Option _) → entry_transferred b ≤ entry_total b
entry-le none = omega arith
entry-le (some b) = omega arith

length-members_of :
    (ts : List TransferItem) (ids : List String) → length (members_of ts ids) ≤ length ids
length-members_of ts [] = omega arith
length-members_of ts (id ∷ ids) = elim (Option-cases (by_id ts id)) [
  | inl missing ↦ rw (missing, length) (omega (arith, length-members_of ts ids))
  | inr (t, found) ↦ rw (found, length) (omega (arith, length-members_of ts ids))
]

one_kind :
    (t : TransferItem)
    → (if is_success t then 1 else 0)
        + (if is_error t then 1 else 0)
        + (if is_paused t then 1 else 0)
        + (if is_active t then 1 else 0)
      ≡ 1
one_kind t = ground arith

count_kinds :
    (ts : List TransferItem)
    → count is_success ts + count is_error ts + count is_paused ts + count is_active ts ≡ length ts
count_kinds [] = refl
count_kinds (t ∷ ts) = omega (arith, one_kind t, count_kinds ts)

-- Of a group's view, no more bytes are transferred than there are; the completed, the failed, the paused
-- and the active files are the files of the list that belong to the group, at most as many as its ids.
pub to_transfer_group_view-adds_up :
    (ts : List TransferItem) (g : TransferGroup)
    → ((to_transfer_group_view ts g).transferred_bytes ≤ (to_transfer_group_view ts g).total_bytes)
      × (let v = to_transfer_group_view ts g in
          v.completed_files + v.failed_files + v.paused_files + v.active_files
          ≡ length (members_of ts g.transfer_ids))
      × (length (members_of ts g.transfer_ids) ≤ (to_transfer_group_view ts g).total_files)
unfolding to_transfer_group_view
to_transfer_group_view-adds_up ts g =
    let members = members_of ts g.transfer_ids in
    let set = distinct g.cancelled_transfer_ids in
    (
      omega (
        arith,
        sum_by-le item_transferred item_total (λ t. omega arith) members,
        sum_by-le (λ id. entry_transferred (cancelled_entry g id))
            (λ id. entry_total (cancelled_entry g id)) (λ id. entry-le (cancelled_entry g id)) set,
      ),
      count_kinds members,
      length-members_of ts g.transfer_ids,
    )

-- A group has come to its end.
abbrev pub is_final : GroupStatus → Bool
is_final status = elim status [ queued ↦ false | active ↦ false | paused ↦ false | _ ↦ true ]

is_final-status_of : (n a b p q c : ℕ) → is_final (status_of n a b p q c) ≡ leb n (a + b + c)
unfolding status_of
is_final-status_of n a b p q c = ground arith

success_iff : (n a b p q c : ℕ) → (status_of n a b p q c ≡ success) ↔ (a ≡ n)
unfolding status_of
success_iff n a b p q c = ground arith

-- A group can be cleared just if its status is a final one, and cancelled just if it is not; the status is
-- success just if every file of the group is completed.
pub to_transfer_group_view-is_final :
    (ts : List TransferItem) (g : TransferGroup)
    → (let v = to_transfer_group_view ts g in
        (v.can_clear ≡ is_final v.status)
        × (v.can_cancel ≡ not (is_final v.status))
        × ((v.status ≡ success) ↔ (v.completed_files ≡ v.total_files)))
unfolding to_transfer_group_view
to_transfer_group_view-is_final ts g =
    let members = members_of ts g.transfer_ids in
    let final =
      is_final-status_of (length g.transfer_ids) (count is_success members) (count is_error members)
        (count is_paused members) (count is_active members)
        (length (distinct g.cancelled_transfer_ids)) in
    (sym final, ap not (sym final), success_iff _ _ _ _ _ _)
