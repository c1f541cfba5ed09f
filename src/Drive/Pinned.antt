-- ===== src/Drive/Pinned.antt =====
-- PinnedFoldersStore (frontend/src/app/features/drive/state/pinned-folders.store.ts). A method is cut at the answer
-- that it waits for: `in_flight` holds the methods that wait, and any of them may go on next.
pub mod Distinct
pub mod Reach
mod Tests
use save_box.Prelude.{
  ℕ, suc, Bool, true, false, not, ◌&&◌, ◌||◌, Option, some, none, List, [], ◌∷◌, ◌++◌, map, length,
  ltb, ◌==◌, if◌then◌else◌, select, any_of, member, set_of,
}

-- What a method waits for.
pub data Task : Type 0 where
  loading : Task
  pinning unpinning : ℕ → Task
  reordering : List ℕ → Task

pub data Error : Type 0 where
  not_loaded not_pinned not_unpinned not_reordered : Error

-- `load_promise` says whether one is kept.
pub record State : Type 0 where
  pub ids : List ℕ
  pub pending : List ℕ
  pub load_promise : Bool
  pub is_loading : Bool
  pub error : Option Error
  pub in_flight : List Task

pub record PinnedFolder : Type 0 where
  pub folder_id : ℕ
  pub position : ℕ

abbrev pub has : List ℕ → ℕ → Bool
has = member ◌==◌

abbrev pub set_pending : ℕ → Bool → State → State
set_pending id true s = record s { pending = id ∷ s.pending }
set_pending id false s = record s { pending = select (λ (i : ℕ). not (i == id)) s.pending }

abbrev pub set_all_pending : List ℕ → Bool → State → State
set_all_pending [] value s = s
set_all_pending (id ∷ ids) value s = set_all_pending ids value (set_pending id value s)

abbrev pub started : Task → State → State
started t s = record s { in_flight = t ∷ s.in_flight }

unfoldable pub load : State → State
load s =
    if s.load_promise
    then s
    else started loading (record s { is_loading = true; error = none; load_promise = true })

unfoldable pub pin : Bool → ℕ → State → State
pin is_locked id s =
    if is_locked || (has s.ids id || has s.pending id)
    then s
    else started (pinning id) (set_pending id true s)

unfoldable pub unpin : ℕ → State → State
unpin id s =
    if not (has s.ids id) || has s.pending id
    then s
    else started (unpinning id) (set_pending id true s)

abbrev pub is_order : List ℕ → List ℕ → Bool
is_order order current =
    (length order == length current)
    && ((length (set_of ◌==◌ order) == length order)
        && (not (any_of (λ id. not (has current id)) order)
            && not (any_of (λ id. not (has order id)) current)))

unfoldable pub reorder : List ℕ → State → State
reorder order s =
    if is_order order s.ids
    then (if any_of (has s.pending) order
        then s
        else started (reordering order) (set_all_pending order true s))
    else s

-- A stable sort by position.
abbrev pub insert : PinnedFolder → List PinnedFolder → List PinnedFolder
insert f [] = f ∷ []
insert f (g ∷ gs) =
    let rest = insert f gs in if ltb g.position f.position then g ∷ rest else f ∷ g ∷ gs

abbrev pub sorted : List PinnedFolder → List PinnedFolder
sorted [] = []
sorted (f ∷ fs) = insert f (sorted fs)

abbrev pub ids_of : List PinnedFolder → List ℕ
ids_of = map (λ (f : PinnedFolder). f.folder_id)

-- What follows the wait, where the request succeeds or fails; the folders are the answer to a load.
unfoldable pub resume : Task → Bool → List PinnedFolder → State → State
resume loading true folders s = record s {
  ids = ids_of (sorted folders);
  is_loading = false;
  load_promise = false;
}
resume loading false folders s = record s {
  error = some not_loaded;
  is_loading = false;
  load_promise = false;
}
resume (pinning id) true folders s =
    set_pending id false
      (record s { ids = if has s.ids id then s.ids else s.ids ++ id ∷ []; error = none })
resume (pinning id) false folders s = set_pending id false (record s { error = some not_pinned })
resume (unpinning id) true folders s =
    set_pending id false (record s { ids = select (λ (i : ℕ). not (i == id)) s.ids; error = none })
resume (unpinning id) false folders s =
    set_pending id false (record s { error = some not_unpinned })
resume (reordering order) true folders s =
    set_all_pending order false (record s { ids = order; error = none })
resume (reordering order) false folders s =
    set_all_pending order false (record s { error = some not_reordered })

unfoldable pub clear : State → State
clear s = record s { ids = []; pending = []; error = none; load_promise = false }
