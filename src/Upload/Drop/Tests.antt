-- ===== src/Upload/Drop/Tests.antt =====
-- A drop of a directory, of an empty one, and of two that are alike.
use save_box.Prelude.{◌≡◌, refl, true, none, some, [], ◌∷◌, ok, throw}
use save_box.Upload.Paths.{parse_directory_sources}
use save_box.Upload.Drop.{
  Item, Listing, done, file, folder, reads, directory_entry, DroppedItems, read, duplicate_path,
}
use save_box.Upload.Drop.Parsed.{read-parse_directory_sources}
use save_box.Upload.Paths.Safe.{uploads_of}

-- "d/e/x" and "d/y"
abbrev tree : Listing
tree =
    folder (b'e' ∷ []) (file (b'x' ∷ []) (reads (b'x' ∷ [])) done)
      (file (b'y' ∷ []) (reads (b'y' ∷ [])) done)

abbrev dropped : Listing → Item
dropped entries = record {
  is_file_kind = true;
  entry = some (directory_entry (b'd' ∷ []) (some entries));
  as_file = none;
}

abbrev both : DroppedItems
both = record {
  files = [];
  dropped_folders =
      record { file_name = b'x' ∷ []; relative_path = b'd' ∷ b'/' ∷ b'e' ∷ b'/' ∷ b'x' ∷ [] }
      ∷ record { file_name = b'y' ∷ []; relative_path = b'd' ∷ b'/' ∷ b'y' ∷ [] }
      ∷ [];
}

reads_tree : read (dropped tree ∷ []) [] ≡ ok both
unfolding read
reads_tree = refl

-- An empty directory comes back as the file that the browser lists for it.
empty_is_a_file :
    read (dropped done ∷ []) ((b'd' ∷ []) ∷ [])
    ≡ ok (record { files = (b'd' ∷ []) ∷ []; dropped_folders = [] })
unfolding read
empty_is_a_file = refl

-- Two directories of one name from different places are one set of paths.
alike_fails : read (dropped tree ∷ dropped tree ∷ []) [] ≡ throw duplicate_path
unfolding read
alike_fails = refl

read-parse_directory_sources_example :
    parse_directory_sources none both.dropped_folders ≡ ok (uploads_of both.dropped_folders)
unfolding read
read-parse_directory_sources_example =
    read-parse_directory_sources (dropped tree ∷ []) [] both refl (refl, (refl, tt))
