-- ===== src/Drive/Navigation.antt =====
-- The navigation of DriveStore, and the names that it shows (frontend/src/app/features/drive/state/drive.store.ts). Each history is kept
-- with its last entry first.
pub mod Trail
use save_box.Prelude.{
  String, ℕ, Bool, true, false, ◌&&◌, Option, some, none, List, [], ◌∷◌, ◌==◌, if◌then◌else◌,
}
use save_box.Drive.Files.{DriveFile, same_folder}

pub record State : Type 0 where
  pub files : List DriveFile
  pub current : Option ℕ
  pub back : List (Option ℕ)
  pub forward : List (Option ℕ)
  pub selected : List ℕ

unfoldable pub set_current_folder : Option ℕ → State → State
set_current_folder id s = record s { current = id; selected = [] }

unfoldable pub navigate_to : Option ℕ → State → State
unfolding set_current_folder
navigate_to id s =
    if same_folder s.current id
    then s
    else set_current_folder id (record s { back = s.current ∷ s.back; forward = [] })

unfoldable pub go_back : State → State
unfolding set_current_folder
go_back s = elim s.back [
  | [] ↦ s
  | target ∷ history ↦
      set_current_folder target (record s { back = history; forward = s.current ∷ s.forward })
]

unfoldable pub go_forward : State → State
unfolding set_current_folder
go_forward s = elim s.forward [
  | [] ↦ s
  | target ∷ history ↦
      set_current_folder target (record s { forward = history; back = s.current ∷ s.back })
]

-- `currentFolder?.parentId ?? null`
unfoldable pub parent_of : List DriveFile → ℕ → Option ℕ
parent_of [] id = none
parent_of (f ∷ files) id =
    let later = parent_of files id in if f.is_folder && (f.id == id) then f.parent_id else later

unfoldable pub navigate_up : State → State
unfolding parent_of
navigate_up s = elim s.current [
  | none ↦ s
  | some id ↦
      if same_folder (parent_of s.files id) (some id)
      then s
      else record s { back = some id ∷ s.back; forward = []; current = parent_of s.files id }
]

abbrev hide_names : List DriveFile → List DriveFile
hide_names [] = []
hide_names (f ∷ files) = (record f { decrypted_name = none }) ∷ hide_names files

unfoldable pub clear_decrypted_names : State → State
clear_decrypted_names s = record s { files = hide_names s.files }
