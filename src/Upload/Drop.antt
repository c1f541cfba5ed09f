-- ===== src/Upload/Drop.antt =====
-- What is dropped on the page: DataTransferReaderService
-- (frontend/src/app/features/drive/services/data-transfer-reader.service.ts). A file is its name.
pub mod Accepted
pub mod Parsed
mod Tests
use save_box.Prelude.{
  ℕ, Bool, true, false, not, ◌&&◌, ◌||◌, Option, some, none, List, [], ◌∷◌, ◌++◌, Result, ok, throw,
  ◌>>=◌, ◌>>◌, length, ltb, select, if◌then◌else◌,
}
use save_box.Session.Token.{Text}
use save_box.Upload.Paths.{
  SourceFile, is_empty, starts_with_separator, starts_with_drive, contains, segments_of,
  any_special, last, is_named, has_path,
}

abbrev pub max_folders : ℕ
max_folders = 1000

abbrev pub max_depth : ℕ
max_depth = 128

pub data DropError : Type 0 where
  invalid_path too_many_folders no_reader duplicate_path no_file_method unreadable_item : DropError
  read_failed : ℕ → DropError

-- What the `file` method of an entry gives: there may be none.
pub data FileRead : Type 0 where
  no_method : FileRead
  fails : ℕ → FileRead
  reads : (file_name : Text) → FileRead

-- What is left of the entries that a directory's reader gives, the batches of `readEntries` one after the
-- other, up to the empty one or an error.
pub data Listing : Type 0 where
  done : Listing
  failed : ℕ → Listing
  file : (name : Text) (read : FileRead) (rest : Listing) → Listing
  folder : (name : Text) (entries rest : Listing) → Listing
  folder_without_reader : (name : Text) (rest : Listing) → Listing
  other : (name : Text) (rest : Listing) → Listing

-- `folders`, `folderPaths` and `filePaths`, the sets in the order of insertion.
pub record Reading : Type 0 where
  pub folders : List SourceFile
  pub folder_paths : List Text
  pub file_paths : List Text

abbrev pub guard : Bool → DropError → Result DropError (Unit {0})
guard true e = ok tt
guard false e = throw e

abbrev pub names_last : List Text → Option Text → Bool
names_last segments none = true
names_last segments (some name) = is_named (last segments) name

-- With the name of the file, for the path of a file.
unfoldable pub validate_path : Text → Option Text → Result DropError (Unit {0})
unfolding starts_with_separator starts_with_drive segments_of
validate_path path file_name = do
  guard
      (not (
        is_empty path
        || (contains path 0 || (starts_with_separator path || starts_with_drive path))))
      invalid_path
  let segments = segments_of path
  guard (not (any_special segments || ltb max_depth (length segments))) invalid_path
  guard (names_last segments file_name) invalid_path

unfoldable pub read_file : FileRead → Result DropError Text
read_file no_method = throw no_file_method
read_file (fails code) = throw (read_failed code)
read_file (reads name) = ok name

abbrev pub child_path : Text → Text → Text
child_path path name = path ++ 47 ∷ name

-- `folderPaths.add(path)`
abbrev pub insert : Text → List Text → List Text
insert path paths = if has_path paths path then paths else paths ++ path ∷ []

-- What `readDirectory` does before it asks for a reader.
unfoldable pub enter : Text → Reading → Result DropError Reading
unfolding validate_path
enter path r = do
  validate_path path none
  let paths = insert path r.folder_paths
  guard (not (ltb max_folders (length paths))) too_many_folders
  ok (record r { folder_paths = paths })

unfoldable pub add_file : Text → FileRead → Reading → Result DropError Reading
unfolding validate_path read_file
add_file path read r = do
  name ← read_file read
  validate_path path (some name)
  guard (not (has_path r.file_paths path)) duplicate_path
  ok (record r {
    file_paths = r.file_paths ++ path ∷ [];
    folders = r.folders ++ record { file_name = name; relative_path = path } ∷ [];
  })

-- The loops of `readDirectory`, for the directory with this path.
unfoldable pub read_listing : Text → Listing → Reading → Result DropError Reading
unfolding enter add_file
read_listing path done r = ok r
read_listing path (failed code) r = throw (read_failed code)
read_listing path (file name read rest) r = do
  added ← add_file (child_path path name) read r
  read_listing path rest added
read_listing path (folder name entries rest) r = do
  entered ← enter (child_path path name) r
  inner ← read_listing (child_path path name) entries entered
  read_listing path rest inner
read_listing path (folder_without_reader name rest) r = do
  entered ← enter (child_path path name) r
  throw no_reader
read_listing path (other name rest) r = read_listing path rest r

unfoldable pub read_directory : Text → Option Listing → Reading → Result DropError Reading
unfolding read_listing
read_directory path none r = do entered ← enter path r; throw no_reader
read_directory path (some entries) r = do entered ← enter path r; read_listing path entries entered

-- What `webkitGetAsEntry` gives.
pub data Entry : Type 0 where
  directory_entry : (name : Text) (reader : Option Listing) → Entry
  file_entry : FileRead → Entry
  other_entry : Entry

pub record Item : Type 0 where
  pub is_file_kind : Bool
  pub entry : Option Entry
  pub as_file : Option Text

pub record DroppedItems : Type 0 where
  pub files : List Text
  pub dropped_folders : List SourceFile

-- The variables of `read`.
pub record Reader : Type 0 where
  pub reading : Reading
  pub read_files : List Text
  pub used_entry_api : Bool
  pub unreadable : Bool

unfoldable pub read_item : Option Entry → Option Text → Reader → Result DropError Reader
unfolding read_directory read_file
read_item (some (directory_entry name reader)) as_file s = do
  reading ← read_directory name reader s.reading
  ok (record s { used_entry_api = true; reading = reading })
read_item (some (file_entry read)) as_file s = do
  name ← read_file read
  ok (record s { used_entry_api = true; read_files = s.read_files ++ name ∷ [] })
read_item (some other_entry) as_file s = ok (record s { used_entry_api = true })
read_item none (some name) s = ok (record s { read_files = s.read_files ++ name ∷ [] })
read_item none none s = ok (record s { unreadable = true })

unfoldable pub read_items : List Item → Reader → Result DropError Reader
unfolding read_item
read_items [] s = ok s
read_items (i ∷ items) s = do next ← read_item i.entry i.as_file s; read_items items next

abbrev pub no_reading : Reader
no_reading = record {
  reading = record { folders = []; folder_paths = []; file_paths = [] };
  read_files = [];
  used_entry_api = false;
  unreadable = false;
}

-- The returns of `read` after its loop.
unfoldable pub finish_read : List Text → Reader → Result DropError DroppedItems
finish_read transferred s =
    let plain : Result DropError DroppedItems =
      ok (record { files = transferred; dropped_folders = [] }) in
    if not s.used_entry_api && (is_empty s.read_files && not (is_empty transferred))
    then plain
    else (if not s.used_entry_api && (is_empty s.read_files && s.unreadable)
        then throw unreadable_item
        else (if is_empty s.reading.folders && not (is_empty transferred)
            then plain
            else ok (record { files = s.read_files; dropped_folders = s.reading.folders })))

-- `read`, with `dataTransfer.items` and `dataTransfer.files`.
unfoldable pub read : List Item → List Text → Result DropError DroppedItems
unfolding read_items finish_read
read items transferred =
    let wanted = select (λ i. i.is_file_kind) items in
    if is_empty wanted
    then ok (record { files = transferred; dropped_folders = [] })
    else (do s ← read_items wanted no_reading; finish_read transferred s)
