-- ===== src/Drive/Pinned/Reach.antt =====
-- The pinned folders after any interleaving of the methods.
use save_box.Prelude.{
  ℕ, ◌≡◌, refl, inl, inr, Bool, true, false, not, none, List, [], ◌∷◌, ◌||◌, ◌++◌, length, ◌==◌,
  ==_iff, any_of, set_of, length-set_of-IsDistinct, arith, Bool-cases,
}
use save_box.Drive.Pinned.{
  Task, loading, pinning, unpinning, reordering, State, PinnedFolder, has, set_pending,
  set_all_pending, load, pin, unpin, is_order, reorder, ids_of, resume, clear,
}
use save_box.Drive.Pinned.Distinct.{
  AreDistinct, AreDistinct-snoc, AreDistinct-select, AreDistinct-sorted,
}

-- A reordering that waits has each id once.
abbrev pub IsFine : Task → Type 0
IsFine loading = Unit
IsFine (pinning id) = Unit
IsFine (unpinning id) = Unit
IsFine (reordering order) = AreDistinct order

abbrev pub AreFine : List Task → Type 0
AreFine [] = Unit
AreFine (t ∷ ts) = IsFine t × AreFine ts

abbrev pub IsTidy : State → Type 0
IsTidy s = AreDistinct s.ids × AreFine s.in_flight

-- The calls, and the end of a wait. The server pins no folder twice.
pub data Step : State → State → Type 0 where
  calls_load : (s : State) → Step s (load s)
  calls_pin : (s : State) (is_locked : Bool) (id : ℕ) → Step s (pin is_locked id s)
  calls_unpin : (s : State) (id : ℕ) → Step s (unpin id s)
  calls_reorder : (s : State) (order : List ℕ) → Step s (reorder order s)
  calls_clear : (s : State) → Step s (clear s)
  goes_on :
      (s : State) (before after : List Task) (t : Task) (succeeds : Bool)
      (folders : List PinnedFolder)
      → s.in_flight ≡ before ++ t ∷ after
      → AreDistinct (ids_of folders)
      → Step s (resume t succeeds folders (record s { in_flight = before ++ after }))

pub data Reach : State → State → Type 0 where
  here : (s : State) → Reach s s
  next : (s t u : State) → Reach s t → Step t u → Reach s u

AreFine-split :
    (before after : List Task) (t : Task)
    → AreFine (before ++ t ∷ after)
    → IsFine t × AreFine (before ++ after)
AreFine-split [] after t fine = fine
AreFine-split (b ∷ before) after t (first, fine) =
    let (now, rest) = AreFine-split before after t fine in (now, (first, rest))

set_all_pending-keeps :
    (ids : List ℕ) (value : Bool) (s : State)
    → ((set_all_pending ids value s).ids ≡ s.ids)
      × ((set_all_pending ids value s).in_flight ≡ s.in_flight)
set_all_pending-keeps [] value s = (refl, refl)
set_all_pending-keeps (id ∷ ids) true s = set_all_pending-keeps ids true (set_pending id true s)
set_all_pending-keeps (id ∷ ids) false s = set_all_pending-keeps ids false (set_pending id false s)

is_order-AreDistinct : (order current : List ℕ) → is_order order current ≡ true → AreDistinct order
is_order-AreDistinct order current h =
    let same : (length (set_of ◌==◌ order) == length order) ≡ true = ground arith in
    length-set_of-IsDistinct ◌==◌ (λ a b. ==_iff a b) order ((==_iff _ _).0 same)

IsTidy-all_pending :
    (ids : List ℕ) (value : Bool) (s : State) → IsTidy s → IsTidy (set_all_pending ids value s)
IsTidy-all_pending ids value s (distinct, fine) =
    let (same, waiting) = set_all_pending-keeps ids value s in (rw same distinct, rw waiting fine)

reorder-IsTidy : (order : List ℕ) (s : State) → IsTidy s → IsTidy (reorder order s)
unfolding reorder
reorder-IsTidy order s tidy = elim (Bool-cases (is_order order s.ids)) [
  | inr other ↦ rw (other, reorder) tidy
  | inl valid ↦ elim (Bool-cases (any_of (has s.pending) order)) [
    | inl busy ↦ rw (valid, busy, reorder) tidy
    | inr free ↦
        let (distinct, fine) = IsTidy-all_pending order true s tidy in
        rw (valid, free, reorder) (distinct, (is_order-AreDistinct order s.ids valid, fine))
  ]
]

resume-IsTidy :
    (t : Task) (succeeds : Bool) (folders : List PinnedFolder) (s : State)
    → IsFine t
    → AreDistinct (ids_of folders)
    → IsTidy s
    → IsTidy (resume t succeeds folders s)
unfolding resume
resume-IsTidy loading true folders s now pinned (distinct, fine) =
    (AreDistinct-sorted folders pinned, fine)
resume-IsTidy loading false folders s now pinned tidy = tidy
resume-IsTidy (pinning id) true folders s now pinned (distinct, fine) =
    elim (Bool-cases (has s.ids id)) [
      | inl already ↦ rw (already, resume) (distinct, fine)
      | inr new ↦ rw (new, resume) (AreDistinct-snoc s.ids id distinct new, fine)
    ]
resume-IsTidy (pinning id) false folders s now pinned tidy = tidy
resume-IsTidy (unpinning id) true folders s now pinned (distinct, fine) =
    (AreDistinct-select _ s.ids distinct, fine)
resume-IsTidy (unpinning id) false folders s now pinned tidy = tidy
resume-IsTidy (reordering order) true folders s now pinned (distinct, fine) =
    IsTidy-all_pending order false (record s { ids = order; error = none }) (now, fine)
resume-IsTidy (reordering order) false folders s now pinned tidy =
    IsTidy-all_pending order false _ tidy

Step-IsTidy : (s t : State) → Step s t → IsTidy s → IsTidy t
unfolding load pin unpin clear
Step-IsTidy s t (calls_load _) (distinct, fine) = elim (Bool-cases s.load_promise) [
  | inl kept ↦ rw (kept, load) (distinct, fine)
  | inr new ↦ rw (new, load) (distinct, (tt, fine))
]
Step-IsTidy s t (calls_pin _ is_locked id) (distinct, fine) =
    elim (Bool-cases (is_locked || (has s.ids id || has s.pending id))) [
      | inl no_call ↦ rw (no_call, pin) (distinct, fine)
      | inr call ↦ rw (call, pin) (distinct, (tt, fine))
    ]
Step-IsTidy s t (calls_unpin _ id) (distinct, fine) =
    elim (Bool-cases (not (has s.ids id) || has s.pending id)) [
      | inl no_call ↦ rw (no_call, unpin) (distinct, fine)
      | inr call ↦ rw (call, unpin) (distinct, (tt, fine))
    ]
Step-IsTidy s t (calls_reorder _ order) tidy = reorder-IsTidy order s tidy
Step-IsTidy s t (calls_clear _) (distinct, fine) = (tt, fine)
Step-IsTidy s t (goes_on _ before after task succeeds folders at pinned) (distinct, fine) =
    let (now, rest) = AreFine-split before after task (rw at at fine) in
    resume-IsTidy task succeeds folders (record s { in_flight = before ++ after }) now pinned
      (distinct, rest)

-- From a state in which no folder is pinned twice and no waiting reordering names one twice, any calls, and
-- answers in any order, lead to such a state, as long as the server's list has no folder twice.
pub Reach-IsTidy : (s t : State) → Reach s t → IsTidy s → IsTidy t
Reach-IsTidy s t (here _) tidy = tidy
Reach-IsTidy s u (next _ t _ reach step) tidy = Step-IsTidy t u step (Reach-IsTidy s t reach tidy)

only_known :
    (order current : List ℕ) (id : ℕ)
    → any_of (λ i. not (has current i)) order ≡ false
    → has current id ≡ false
    → has order id ≡ false
only_known [] current id known new = refl
only_known (i ∷ order) current id known new = elim (Bool-cases (has current i)) [
  | inr missing ↦ cc (rw missing at known)
  | inl there ↦ elim (Bool-cases (id == i)) [
    | inr apart ↦ rw apart (only_known order current id (rw there at known) new)
    | inl same ↦ let at : id ≡ i = (==_iff id i).0 same in cc
  ]
]

-- If a list is an order of the pinned folders, and a folder that is not among them is pinned before the
-- reordering by that list has its answer, then the folder is in the store after its own answer, and no
-- longer after that of the reordering.
pub reorder-loses :
    (order : List ℕ) (id : ℕ) (s : State) (folders : List PinnedFolder)
    → is_order order s.ids ≡ true
    → has s.ids id ≡ false
    → (has (resume (pinning id) true folders s).ids id ≡ true)
      × (has (resume (reordering order) true folders (resume (pinning id) true folders s)).ids id
          ≡ false)
unfolding resume
reorder-loses order id s folders valid new =
    let known : any_of (λ i. not (has s.ids i)) order ≡ false = ground arith in
    let kept =
      set_all_pending-keeps order false
        (record (resume (pinning id) true folders s) { ids = order; error = none }) in
    (rw new (has-last s.ids id), rw kept.0 (only_known order s.ids id known new))
  where
    has-last : (ids : List ℕ) (id : ℕ) → has (ids ++ id ∷ []) id ≡ true
    has-last [] id = rw ((==_iff id id).1 refl) refl
    has-last (i ∷ ids) id = elim (Bool-cases (id == i)) [
      | inl h ↦ rw h refl
      | inr h ↦ rw h (has-last ids id)
    ]
