-- ===== src/Drive/Pinned/Tests.antt =====
-- Two pinned folders, and a third that is pinned while they are reordered.
use save_box.Prelude.{◌≡◌, refl, true, false, none, List, [], ◌∷◌}
use save_box.Drive.Pinned.{
  State, PinnedFolder, pinning, reordering, loading, load, pin, unpin, reorder, resume, clear,
}
use save_box.Drive.Pinned.Reach.{IsTidy, here, next, calls_load, goes_on, Reach-IsTidy}

program : Unit {0}
unfolding load pin unpin reorder resume clear
program = tt

abbrev empty : State
empty = record {
  ids = [];
  pending = [];
  load_promise = false;
  is_loading = false;
  error = none;
  in_flight = [];
}

abbrev folders : List PinnedFolder
folders = (record { folder_id = 8; position = 2 }) ∷ (record { folder_id = 5; position = 1 }) ∷ []

abbrev two : State
two = record empty { ids = 5 ∷ 8 ∷ [] }

waits :
    (pin false 9 (reorder (8 ∷ 5 ∷ []) two)).in_flight ≡ pinning 9 ∷ reordering (8 ∷ 5 ∷ []) ∷ []
unfolding program
waits = refl

busy : reorder (8 ∷ 5 ∷ []) (unpin 8 two) ≡ unpin 8 two
unfolding program
busy = refl

Reach-IsTidy_example : IsTidy (resume loading true folders (record (load empty) { in_flight = [] }))
unfolding program
Reach-IsTidy_example =
    Reach-IsTidy empty (resume loading true folders (record (load empty) { in_flight = [] }))
      (next empty (load empty) _ (next empty empty _ (here empty) (calls_load empty))
        (goes_on (load empty) [] [] loading true folders refl (refl, (refl, tt))))
      (tt, tt)
