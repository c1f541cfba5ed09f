-- ===== src/Drive/Files.antt =====
-- The files of DriveStore (frontend/src/app/features/drive/state/drive.store.ts): how they are loaded page by page, shown
-- under their decrypted names, and listed in a folder. `shown` is `decryptName` of the crypto service, and
-- `lower` is `toLowerCase`. The texts for a size and a date are left out.
mod Tests
pub mod Paging
pub mod Listing
use Prim.Native.String.{len, slice}
use text.Mathlib.Text.{◌==◌ as str_eq}
use save_box.Prelude.{
  ℕ, zero, suc, ◌+◌, ◌-◌, Bool, true, false, not, ◌&&◌, ◌||◌, Option, some, none, List, [], ◌∷◌,
  ◌++◌, map, String, length, leb, if◌then◌else◌, select, any_of, ◌==◌, Result, ok, throw, ◌>>=◌,
  ◌>>◌,
}

pub data FileType : Type 0 where
  folder pdf image doc spreadsheet video audio unknown : FileType

-- A file or a folder; `parent_id` is that of a folder and `folder_id` that of a file.
pub record DriveFile : Type 0 where
  pub id : ℕ
  pub is_folder : Bool
  pub encrypted_name : String
  pub decrypted_name : Option String
  pub file_type : FileType
  pub size_bytes : ℕ
  pub parent_id : Option ℕ
  pub folder_id : Option ℕ
  pub is_hidden : Bool

-- What the server sends.
pub record FolderRow : Type 0 where
  pub id : ℕ
  pub encrypted_name : String
  pub parent_id : Option ℕ

pub record FileRow : Type 0 where
  pub id : ℕ
  pub encrypted_name : String
  pub size_bytes : ℕ
  pub folder_id : Option ℕ
  pub is_hidden : Bool

pub record Page : Type 0 where
  pub folders : List FolderRow
  pub files : List FileRow

pub data Error : Type 0 where
  request_failed : ℕ → Error
  diverged : Error

abbrev pub page_size : ℕ
page_size = 100

abbrev pub ends_with : String → String → Bool
ends_with s end = leb (len end) (len s) && str_eq (slice s (len s - len end) (len s)) end

abbrev pub ends_with_any : List String → String → Bool
ends_with_any ends s = any_of (λ end. ends_with s end) ends

unfoldable pub type_of_name : (String → String) → String → FileType
type_of_name lower name =
    let s = lower name in
    if ends_with s ".pdf"
    then pdf
    else if ends_with_any (".jpg" ∷ ".jpeg" ∷ ".png" ∷ ".gif" ∷ ".webp" ∷ []) s
    then image
    else if ends_with_any (".doc" ∷ ".docx" ∷ []) s
    then doc
    else if ends_with_any (".xls" ∷ ".xlsx" ∷ []) s
    then spreadsheet
    else if ends_with_any (".mp4" ∷ ".webm" ∷ ".mkv" ∷ ".avi" ∷ ".mov" ∷ []) s
    then video
    else if ends_with_any (".mp3" ∷ ".wav" ∷ ".ogg" ∷ ".aac" ∷ ".flac" ∷ []) s
    then audio
    else unknown

-- No name and the empty name have no type.
abbrev pub type_of : (String → String) → Option String → FileType
type_of lower none = unknown
type_of lower (some name) = if str_eq name "" then unknown else type_of_name lower name

-- The name is decrypted only if the vault is unlocked.
abbrev pub name_of : Bool → (String → String) → String → Option String
name_of unlocked shown encrypted = if unlocked then some (shown encrypted) else none

-- `getTree` is asked for so many files, from an offset. The loop asks until a page is not full.
unfoldable pub more_files :
    (ℕ → ℕ → Result ℕ Page) → ℕ → ℕ → List FileRow → Result Error (List FileRow)
more_files get_tree zero offset last = throw diverged
more_files get_tree (suc fuel) offset last =
    if length last == page_size
    then elim (get_tree page_size offset) [
      | throw status ↦ throw (request_failed status)
      | ok page ↦ do
        rest ← more_files get_tree fuel (offset + length page.files) page.files
        ok (page.files ++ rest)
    ]
    else ok []

module _ (lower shown : String → String) where
  unfoldable pub parse_folder : Bool → FolderRow → DriveFile
  parse_folder unlocked row = record {
    id = row.id;
    is_folder = true;
    encrypted_name = row.encrypted_name;
    decrypted_name = name_of unlocked shown row.encrypted_name;
    file_type = folder;
    size_bytes = 0;
    parent_id = row.parent_id;
    folder_id = none;
    is_hidden = false;
  }

  unfoldable pub parse_file : Bool → FileRow → DriveFile
  unfolding type_of_name
  parse_file unlocked row = record {
    id = row.id;
    is_folder = false;
    encrypted_name = row.encrypted_name;
    decrypted_name = name_of unlocked shown row.encrypted_name;
    file_type = type_of lower (name_of unlocked shown row.encrypted_name);
    size_bytes = row.size_bytes;
    parent_id = none;
    folder_id = row.folder_id;
    is_hidden = row.is_hidden;
  }

  -- The files that are set, with the fuel for the loop. After an error the store keeps its files.
  unfoldable pub load_tree : Bool → (ℕ → ℕ → Result ℕ Page) → ℕ → Result Error (List DriveFile)
  unfolding more_files parse_folder parse_file
  load_tree unlocked get_tree fuel = elim (get_tree page_size 0) [
    | throw status ↦ throw (request_failed status)
    | ok page ↦ do
      rest ← more_files get_tree fuel (length page.files) page.files
      ok (
          map (parse_folder unlocked) page.folders
          ++ map (parse_file unlocked) (page.files ++ rest))
  ]

  abbrev pub re_decrypted : DriveFile → DriveFile
  re_decrypted f =
      let name = some (shown f.encrypted_name) in
      record f {
        decrypted_name = name;
        file_type = if f.is_folder then folder else type_of lower name;
      }

  unfoldable pub re_decrypt_all : Bool → List DriveFile → List DriveFile
  unfolding type_of_name
  re_decrypt_all false files = files
  re_decrypt_all true files = map re_decrypted files

abbrev pub same_folder : Option ℕ → Option ℕ → Bool
same_folder none none = true
same_folder none (some j) = false
same_folder (some i) none = false
same_folder (some i) (some j) = i == j

-- The folder that an item is in.
abbrev pub place_of : DriveFile → Option ℕ
place_of f = if f.is_folder then f.parent_id else f.folder_id

unfoldable pub current_folder_files : List DriveFile → Option ℕ → List DriveFile
current_folder_files files current =
    select (λ f. same_folder (place_of f) current) (select (λ f. not f.is_hidden) files)

abbrev pub is_trash_folder : List DriveFile → ℕ → Bool
is_trash_folder trash id = any_of (λ f. f.is_folder && f.id == id) trash

abbrev pub is_trash_root : List DriveFile → DriveFile → Bool
is_trash_root trash f = elim (place_of f) [ none ↦ true | some id ↦ not (is_trash_folder trash id) ]

unfoldable pub current_trash_folder_files : List DriveFile → Option ℕ → List DriveFile
current_trash_folder_files trash none = select (is_trash_root trash) trash
current_trash_folder_files trash (some id) =
    select (λ f. not f.is_hidden && same_folder (place_of f) (some id)) trash

-- `foldersMap.get(...)`: a later folder replaces an earlier one of the same id.
abbrev pub folder_at : List DriveFile → ℕ → Option DriveFile
folder_at [] id = none
folder_at (f ∷ files) id = elim (folder_at files id) [
  | some g ↦ some g
  | none ↦ if f.is_folder && f.id == id then some f else none
]

-- The loop of `currentPath`, from a folder up; `none` says that the fuel ran out.
unfoldable pub ancestors : List DriveFile → ℕ → Option ℕ → Option (List DriveFile)
ancestors files zero current = none
ancestors files (suc fuel) none = some []
ancestors files (suc fuel) (some id) = elim (folder_at files id) [
  | none ↦ some []
  | some f ↦ elim (ancestors files fuel f.parent_id) [
    | none ↦ none
    | some above ↦ some (above ++ f ∷ [])
  ]
]
