-- ===== src/Upload/Folders/Tests.antt =====
-- A small folder, as it is uploaded: photos/summer/a and photos/b.
use save_box.Prelude.{
  ℕ, zero, suc, ◌≤◌, ◌≡◌, ◌≢◌, ◌↔◌, refl, ap, inl, inr, some, none, Option, List, [], ◌∷◌, ok,
  throw, arith, map, replicate, length, get_or, length-replicate, false,
}
use save_box.Session.Token.{Text}
use save_box.Upload.Paths.{
  UploadFile, contains, parse_directory_sources, parse_sources, parse_source, segments_of,
  split_path, starts_with_separator, starts_with_drive,
}
use save_box.Upload.Folders.{
  Node, Tree, TreeFile, FolderResponse, Services, Candidate, root_text, folder_of,
  inconsistent_response, folder_batch_limit, descend, file_all, build_folder_upload_tree,
  FolderRequest, answered, folder_requests, accept_items, validate_response, prepare_tree,
  prepare_sources,
}
use save_box.Upload.Folders.Shape.{IsFresh, IsTree}
use save_box.Upload.Folders.Filed.{
  AreFiled, build_folder_upload_tree-AreFiled, build_folder_upload_tree_unique,
}
use save_box.Upload.Folders.Answers.{IsAnswer, prepare_tree-IsAnswer}

-- One letter more than the number of the call.
abbrev reference : ℕ → Text
reference i = 97 ∷ replicate i 97

letters-one_line : (i : ℕ) → contains (replicate i 97) 10 ≡ false
letters-one_line zero = refl
letters-one_line (suc i) = letters-one_line i

reference-not_root : (i : ℕ) → reference i ≢ root_text
reference-not_root i same =
    let letter : 97 ≡ 114 = ap (λ (t : Text). get_or t 0 0) same in omega (arith, letter)

reference-IsFresh : IsFresh reference
reference-IsFresh = record {
  apart = λ i j same.
      omega (arith, ap length same, length-replicate {A = ℕ} i 97, length-replicate {A = ℕ} j 97);
  one_line = λ i. letters-one_line i;
  not_root = reference-not_root;
}

program : Unit {0}
unfolding descend file_all build_folder_upload_tree folder_requests accept_items validate_response
    prepare_tree prepare_sources parse_directory_sources parse_sources parse_source segments_of
    split_path starts_with_separator starts_with_drive
program = tt

abbrev photos : Text
photos = 112 ∷ []

abbrev summer : Text
summer = 115 ∷ []

abbrev files : List UploadFile
files =
    (record { file_name = 97 ∷ []; segments = photos ∷ summer ∷ (97 ∷ []) ∷ [] })
    ∷ (record { file_name = 98 ∷ []; segments = photos ∷ (98 ∷ []) ∷ [] })
    ∷ []

abbrev photos_node : Node
photos_node = record { client_ref = 97 ∷ []; parent_client_ref = none; name = photos }

abbrev summer_node : Node
summer_node = record {
  client_ref = 97 ∷ 97 ∷ [];
  parent_client_ref = some (97 ∷ []);
  name = summer;
}

abbrev tree : Tree
tree = record {
  nodes = photos_node ∷ summer_node ∷ [];
  files =
      (record { file_name = 97 ∷ []; folder_client_ref = some (97 ∷ 97 ∷ []) })
      ∷ (record { file_name = 98 ∷ []; folder_client_ref = some (97 ∷ []) })
      ∷ [];
}

built : build_folder_upload_tree reference files ≡ ok tree
unfolding program
built = refl

abbrev answering : List FolderResponse → Services
answering response = record {
  encrypt_name = λ name. some name;
  hash_name = λ name. name;
  batch_create_folders = λ root folders. ok response;
}

abbrev two_folders : List FolderResponse
two_folders =
    (record { client_ref = 97 ∷ 97 ∷ []; folder_id = 8 })
    ∷ (record { client_ref = 97 ∷ []; folder_id = 5 })
    ∷ []

abbrev candidates : List Candidate
candidates =
    (record { file_name = 97 ∷ []; folder_id = some 8 })
    ∷ (record { file_name = 98 ∷ []; folder_id = some 5 })
    ∷ []

prepared : prepare_tree (answering two_folders) tree (some 3) ≡ ok candidates
unfolding program
prepared = refl

from_paths :
    prepare_sources reference
      (answering two_folders)
      ((record { file_name = 97 ∷ []; relative_path = 112 ∷ 47 ∷ 115 ∷ 47 ∷ 97 ∷ [] })
        ∷ (record { file_name = 98 ∷ []; relative_path = 112 ∷ 47 ∷ 98 ∷ [] })
        ∷ [])
      (some 3)
    ≡ ok candidates
unfolding program
from_paths = refl

one_missing :
    prepare_tree (answering ((record { client_ref = 97 ∷ []; folder_id = 5 }) ∷ [])) tree none
    ≡ throw inconsistent_response
unfolding program
one_missing = refl

build_folder_upload_tree-AreFiled_example :
    AreFiled tree.nodes files tree.files
    × IsTree reference reference-IsFresh tree.nodes
    × (length tree.nodes ≤ folder_batch_limit)
build_folder_upload_tree-AreFiled_example =
    build_folder_upload_tree-AreFiled reference reference-IsFresh files tree built

build_folder_upload_tree_unique_example :
    (photos ∷ [] ≡ summer ∷ photos ∷ [])
    ↔ (◌≡◌ {A = Option Text} (some (97 ∷ [])) (some (97 ∷ 97 ∷ [])))
build_folder_upload_tree_unique_example =
    build_folder_upload_tree_unique reference reference-IsFresh files tree (photos ∷ [])
      (summer ∷ photos ∷ []) (some (97 ∷ [])) (some (97 ∷ 97 ∷ [])) built
      (photos_node, inl refl, refl, refl, refl)
      (summer_node, inr (inl refl), refl, refl, (photos_node, inl refl, refl, refl, refl))

prepare_tree-IsAnswer_example :
    (folders : List FolderRequest) × (response : List FolderResponse) × (folder_requests
        (answering two_folders)
        tree.nodes
      ≡ ok folders)
    × (answered ((answering two_folders).batch_create_folders (some 3) folders) ≡ ok response)
    × (candidates
        ≡ map
            (λ (f : TreeFile). record {
              file_name = f.file_name;
              folder_id = folder_of response (some 3) f.folder_client_ref;
            })
            tree.files)
    × IsAnswer ((97 ∷ []) ∷ (97 ∷ 97 ∷ []) ∷ []) response
prepare_tree-IsAnswer_example =
    prepare_tree-IsAnswer (answering two_folders) tree (some 3) candidates prepared
