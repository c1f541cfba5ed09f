-- ===== src/Drive/Tests.antt =====
-- The drive's state at concrete inputs.
use save_box.Prelude.{◌≡◌, refl, true, false, some, none, [], ◌∷◌}
use save_box.Drive.Files.{folder}
use save_box.Drive.Navigation.{State, navigate_to, go_back, navigate_up}
use save_box.Drive.Navigation.Trail.{IsTrail, here, next, to, back, up, Reach-IsTrail}

abbrev start : State
start = record {
  files =
      (record {
        id = 4;
        is_folder = true;
        encrypted_name = "";
        decrypted_name = some "fotos";
        file_type = folder;
        size_bytes = 0;
        parent_id = some 3;
        folder_id = none;
        is_hidden = false;
      })
      ∷ [];
  current = none;
  back = [];
  forward = [];
  selected = 9 ∷ [];
}

-- Going up leaves the selection as it is.
up_keeps_selection : (navigate_up (record start { current = some 4 })).selected ≡ 9 ∷ []
unfolding navigate_up
up_keeps_selection = refl

Reach-IsTrail_example : IsTrail (navigate_up (go_back (navigate_to (some 4) start)))
Reach-IsTrail_example =
    Reach-IsTrail {s = start} (tt, tt) (next (next (next here (to (some 4))) back) up)
