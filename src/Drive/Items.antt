-- ===== src/Drive/Items.antt =====
-- The file operations of DriveStore (frontend/src/app/features/drive/state/drive.store.ts): renaming, moving, the
-- trash, and the proxies, the smaller versions of videos that lie beside them. An operation is the list of
-- the requests that it sends, each after the answer to the one before; it stops at the first that fails.
-- The loading that follows is left out.
pub mod Proxies
mod Tests
use text.Mathlib.Text.{◌==◌ as str_eq}
use Prim.Native.String.{◌++◌ as str_append}
use save_box.Prelude.{
  ℕ, Bool, true, false, not, ◌&&◌, ◌||◌, Option, some, none, List, [], ◌∷◌, ◌++◌, map, String,
  length, ltb, if◌then◌else◌, select, find_first, ◌==◌, Result, ok, throw, ◌>>=◌, ◌>>◌,
}
use save_box.Drive.Files.{DriveFile, same_folder}

-- An encrypted name and the hash of the name.
pub record Name : Type 0 where
  pub encrypted_name : String
  pub name_hash : String

pub data Request : Type 0 where
  update_file update_folder : ℕ → Name → Request
  move_file move_folder : ℕ → Option ℕ → Request
  trash_file trash_folder restore_file restore_folder hard_delete_file hard_delete_folder :
      ℕ → Request
  batch_soft_delete_files batch_soft_delete_folders : List ℕ → Request
  batch_hard_delete_files batch_hard_delete_folders : List ℕ → Request

pub data Error : Type 0 where
  locked into_itself not_encrypted : Error

-- What a concatenation makes of a name that could not be decrypted.
abbrev pub text_of : Option String → String
text_of none = "null"
text_of (some s) = s

abbrev pub proxy_name : Option String → String
proxy_name name = str_append (text_of name) ".proxy.mp4"

abbrev pub legacy_proxy_name : Option String → String
legacy_proxy_name name = str_append "__PROXY__" (text_of name)

abbrev pub is_named : String → DriveFile → Bool
is_named name f = elim f.decrypted_name [ none ↦ false | some s ↦ str_eq s name ]

abbrev pub is_beside : DriveFile → DriveFile → Bool
is_beside file f = not f.is_folder && same_folder f.folder_id file.folder_id

abbrev pub is_proxy : DriveFile → DriveFile → Bool
is_proxy file f =
    (is_named (proxy_name file.decrypted_name) f
      || is_named (legacy_proxy_name file.decrypted_name) f)
    && is_beside file f

abbrev pub is_legacy_proxy : DriveFile → DriveFile → Bool
is_legacy_proxy file f = is_named (legacy_proxy_name file.decrypted_name) f && is_beside file f

abbrev pub for_proxy : (ℕ → Request) → Option DriveFile → List Request
for_proxy request none = []
for_proxy request (some p) = request p.id ∷ []

-- `name_of` encrypts and hashes a name, and is `none` if the encryption throws.
unfoldable pub rename_item :
    Bool
    → (String → Option Name)
    → List DriveFile
    → DriveFile
    → String
    → List Request × Result Error (Unit {0})
rename_item false name_of files file new_name = ([], throw locked)
rename_item true name_of files file new_name = elim (name_of new_name) [
  | none ↦ ([], throw not_encrypted)
  | some name ↦
      if file.is_folder
      then (update_folder file.id name ∷ [], ok tt)
      else elim (find_first (is_proxy file) files) [
        | none ↦ (update_file file.id name ∷ [], ok tt)
        | some p ↦ elim (name_of (proxy_name (some new_name))) [
          | none ↦ (update_file file.id name ∷ [], throw not_encrypted)
          | some second ↦ (update_file file.id name ∷ update_file p.id second ∷ [], ok tt)
        ]
      ]
]

unfoldable pub move_item : Bool → DriveFile → Option ℕ → Result Error (List Request)
move_item false file target = throw locked
move_item true file target =
    if file.is_folder
    then (if same_folder (some file.id) target
        then throw into_itself
        else ok (move_folder file.id target ∷ []))
    else ok (move_file file.id target ∷ [])

unfoldable pub trash_item : List DriveFile → DriveFile → List Request
trash_item files file =
    if file.is_folder
    then trash_folder file.id ∷ []
    else trash_file file.id ∷ for_proxy trash_file (find_first (is_proxy file) files)

unfoldable pub restore_item : List DriveFile → DriveFile → List Request
restore_item trash_files file =
    if file.is_folder
    then restore_folder file.id ∷ []
    else restore_file file.id
      ∷ for_proxy restore_file (find_first (is_legacy_proxy file) trash_files)

unfoldable pub permanent_delete_item : List DriveFile → DriveFile → List Request
permanent_delete_item trash_files file =
    if file.is_folder
    then hard_delete_folder file.id ∷ []
    else hard_delete_file file.id
      ∷ for_proxy hard_delete_file (find_first (is_legacy_proxy file) trash_files)

abbrev pub ids_of : List DriveFile → List ℕ
ids_of = map (λ (f : DriveFile). f.id)

abbrev pub file_ids : List DriveFile → List ℕ
file_ids files = ids_of (select (λ f. not f.is_folder) files)

abbrev pub folder_ids : List DriveFile → List ℕ
folder_ids files = ids_of (select (λ f. f.is_folder) files)

-- The requests for one file of a batch; those of different files are sent at the same time.
unfoldable pub batch_restore_item : List DriveFile → DriveFile → List Request
batch_restore_item trash_files file =
    if file.is_folder
    then restore_folder file.id ∷ []
    else restore_file file.id ∷ map restore_file (ids_of (select (is_proxy file) trash_files))

unfoldable pub batch_restore_items : List DriveFile → List DriveFile → List (List Request)
unfolding batch_restore_item
batch_restore_items trash_files = map (batch_restore_item trash_files)

abbrev pub for_ids : (List ℕ → Request) → List ℕ → List Request
for_ids request [] = []
for_ids request (id ∷ ids) = request (id ∷ ids) ∷ []

unfoldable pub batch_trash_items : List DriveFile → List Request
batch_trash_items files =
    for_ids batch_soft_delete_files (file_ids files)
    ++ for_ids batch_soft_delete_folders (folder_ids files)

abbrev pub proxy_ids : List DriveFile → List DriveFile → List ℕ
proxy_ids trash_files [] = []
proxy_ids trash_files (f ∷ files) =
    ids_of (select (is_proxy f) trash_files) ++ proxy_ids trash_files files

unfoldable pub batch_permanent_delete_items : List DriveFile → List DriveFile → List Request
batch_permanent_delete_items trash_files files =
    for_ids batch_hard_delete_files
      (file_ids files ++ proxy_ids trash_files (select (λ f. not f.is_folder) files))
    ++ for_ids batch_hard_delete_folders (folder_ids files)
