-- ===== src/Drive/Transfers/Ended.antt =====
-- A group can be cleared once it has been cancelled.
use text.Mathlib.Text.{◌==◌ as str_eq}
use text.Mathlib.TextEquality.{eq_iff}
use save_box.Prelude.{
  ◌+◌, ◌≤◌, ◌≡◌, refl, ◌∙◌, inl, inr, Bool, true, false, not, some, none, List, [], ◌∷◌, String,
  length, le→leb, if◌then◌else◌, select, find_first, count, Bool-cases, Option-cases, arith, member,
  IsDistinct, set_of, member-set_of, length-select, length-distinct-le,
}
use save_box.Drive.Transfers.{
  TransferItem, TransferGroup, State, has_id, includes, find_group, is_done, is_success, is_error,
  is_open, cancel_transfer, cancel_all, cancel_transfer_group,
}
use save_box.Drive.Transfers.View.{by_id, members_of, to_transfer_group_view}
use save_box.Drive.Transfers.Cancel.{cancel_transfer-transfers}
use save_box.Drive.Transfers.Settle.{IsKnown, IsSettled, cancel_all-Settles}

-- At most one transfer has the id.
abbrev pub IsUnique : List TransferItem → Type 0
IsUnique ts = (id : String) → count (has_id id) ts ≤ 1

by_id-none : (ts : List TransferItem) (id : String) → count (has_id id) ts ≡ 0 → by_id ts id ≡ none
by_id-none [] id h = refl
by_id-none (t ∷ ts) id h = elim (Bool-cases (has_id id t)) [
  | inl same ↦ absurd (omega (arith, rw same at h))
  | inr other ↦ rw (by_id-none ts id (omega (arith, rw other at h)), other) refl
]

by_id-find_first :
    (ts : List TransferItem) (id : String)
    → count (has_id id) ts ≤ 1
    → by_id ts id ≡ find_first (has_id id) ts
by_id-find_first [] id h = refl
by_id-find_first (t ∷ ts) id h = elim (Bool-cases (has_id id t)) [
  | inl same ↦ rw (by_id-none ts id (omega (arith, rw same at h)), same) refl
  | inr other ↦
      let rest = by_id-find_first ts id (omega (arith, rw other at h)) in
      elim (Option-cases (find_first (has_id id) ts)) [
        | inl missing ↦ rw (rest, missing, other) refl
        | inr (u, there) ↦ rw (rest, there, other) refl
      ]
]

count-select :
    {A : Type 0} (test keep : A → Bool) (xs : List A) → count test (select keep xs) ≤ count test xs
count-select test keep [] = omega arith
count-select test keep (x ∷ xs) = elim (Bool-cases (keep x)) [
  | inl kept ↦ rw kept (omega (arith, count-select test keep xs))
  | inr dropped ↦ rw dropped (omega (arith, count-select test keep xs))
]

cancel_all-IsUnique :
    (ids : List String) (s : State) → IsUnique s.transfers → IsUnique (cancel_all ids s).transfers
unfolding cancel_all
cancel_all-IsUnique [] s unique = unique
cancel_all-IsUnique (x ∷ ids) s unique =
    elim (Bool-cases (is_open (find_first (has_id x) s.transfers))) [
      | inr closed ↦ rw (closed, cancel_all) (cancel_all-IsUnique ids s unique)
      | inl open_now ↦
          rw (open_now, cancel_all)
            (cancel_all-IsUnique ids (cancel_transfer x s) (λ id.
              rw (cancel_transfer-transfers x s) (
                omega (
                  arith,
                  unique id,
                  count-select (has_id id) (λ t. not (has_id x t)) s.transfers,
                ))))
    ]

settled_counts :
    (t : TransferItem)
    → is_done t ≡ true
    → (if is_success t then 1 else 0) + (if is_error t then 1 else 0) ≡ 1
settled_counts t done = ground arith

module _ (s : State) (g : TransferGroup) (unique : IsUnique s.transfers) where
  length-le-terminal :
      (ids : List String)
      → ((id : String) → includes ids id ≡ true → IsSettled s g id)
      → length ids
        ≤ count is_success (members_of s.transfers ids)
          + count is_error (members_of s.transfers ids)
          + count (includes g.cancelled_transfer_ids) ids
  length-le-terminal [] settled = omega arith
  length-le-terminal (id ∷ ids) settled =
      let rest = length-le-terminal ids (λ k listed. settled k (later id ids k listed)) in
      let ts = s.transfers in
      elim (settled id (rw ((eq_iff id id).1 refl) refl)) [
        | inl already ↦ elim (Option-cases (by_id ts id)) [
          | inl missing ↦ rw (missing, already, count) (omega (arith, rest))
          | inr (t, there) ↦ rw (there, already, count) (omega (arith, rest))
        ]
        | inr (t, there, done) ↦
            let here : by_id ts id ≡ some t = by_id-find_first ts id (unique id) ∙ there in
            rw (here, count) (omega (arith, rest, settled_counts t done))
      ]
    where
      later :
          (x : String) (ids : List String) (id : String)
          → includes ids id ≡ true
          → includes (x ∷ ids) id ≡ true
      later x ids id there = elim (Bool-cases (str_eq id x)) [
        | inl h ↦ rw h refl
        | inr h ↦ rw h there
      ]

member-select :
    (keep : String → Bool) (xs : List String) (id : String)
    → member str_eq (select keep xs) id ≡ true
    → (member str_eq xs id ≡ true) × (keep id ≡ true)
member-select keep [] id h = cc
member-select keep (x ∷ xs) id h = elim (Bool-cases (keep x)) [
  | inr dropped ↦
      let (there, kept) = member-select keep xs id (rw dropped at h) in
      elim (Bool-cases (str_eq id x)) [ inl e ↦ (rw e refl, kept) | inr e ↦ (rw e there, kept) ]
  | inl kept ↦ elim (Bool-cases (str_eq id x)) [
    | inl e ↦ let at : id ≡ x = (eq_iff id x).0 e in (rw e refl, rw at kept)
    | inr e ↦ let (there, also) = member-select keep xs id (rw (kept, e) at h) in (rw e there, also)
  ]
]

select-IsDistinct :
    (keep : String → Bool) (xs : List String)
    → IsDistinct str_eq xs
    → IsDistinct str_eq (select keep xs)
select-IsDistinct keep [] distinct_ids = tt
select-IsDistinct keep (x ∷ xs) (fresh, distinct_ids) = elim (Bool-cases (keep x)) [
  | inr dropped ↦ rw dropped (select-IsDistinct keep xs distinct_ids)
  | inl kept ↦ rw kept (missing, select-IsDistinct keep xs distinct_ids)
]
  where
    missing : member str_eq (select keep xs) x ≡ false
    missing = elim (Bool-cases (member str_eq (select keep xs) x)) [
      | inr h ↦ h
      | inl h ↦ let (there, kept) = member-select keep xs x h in cc
    ]

-- Of distinct ids no more are among others than these are as a set.
count-le-set :
    (ids others : List String)
    → IsDistinct str_eq ids
    → count (includes others) ids ≤ length (set_of str_eq others)
count-le-set ids others distinct_ids =
    let below =
      length-distinct-le str_eq eq_iff (select (includes others) ids) (set_of str_eq others)
        (select-IsDistinct (includes others) ids distinct_ids)
        (λ z inside.
          member-set_of str_eq eq_iff others z
          ∙ (member-select (includes others) ids z inside).1) in
    omega (arith, below, length-select (includes others) ids)

-- If each id is of at most one transfer, and the ids of a group differ and are each of a transfer of the
-- group or recorded as cancelled, then after the group is cancelled its view can be cleared.
pub cancel_transfer_group-can_clear :
    (gid : String) (s : State) (g : TransferGroup)
    → find_group gid s ≡ some g
    → str_eq g.id "" ≡ false
    → IsDistinct str_eq g.transfer_ids
    → ((id : String) → includes g.transfer_ids id ≡ true → IsKnown s g id)
    → IsUnique s.transfers
    → (h : TransferGroup) × (find_group gid (cancel_transfer_group gid s) ≡ some h)
      × (h.transfer_ids ≡ g.transfer_ids)
      × ((to_transfer_group_view (cancel_transfer_group gid s).transfers h).can_clear ≡ true)
unfolding cancel_transfer_group to_transfer_group_view
cancel_transfer_group-can_clear gid s g found named distinct_ids known unique =
    let end = cancel_all-Settles gid g.transfer_ids s g found named known in
    let after = cancel_all g.transfer_ids s in
    let h = end.group in
    let counted =
      length-le-terminal after h (cancel_all-IsUnique g.transfer_ids s unique) g.transfer_ids
        end.settled in
    let fewer = count-le-set g.transfer_ids h.cancelled_transfer_ids distinct_ids in
    rw (found, cancel_transfer_group)
      (
        h,
        end.found,
        end.keeps.listed,
        rw end.keeps.listed (le→leb _ _ (omega (arith, counted, fewer))),
      )
