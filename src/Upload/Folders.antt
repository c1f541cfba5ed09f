-- ===== src/Upload/Folders.antt =====
-- The folders of an upload: `buildFolderUploadTree` of frontend/src/app/features/drive/upload/folder-upload-tree.ts
-- and FolderUploadCoordinatorService (folder-upload-coordinator.service.ts beside it). `reference i` is
-- what `crypto.randomUUID` returns on its call `i`; texts are lists of characters.
pub mod Shape
pub mod Filed
pub mod Answers
mod Tests
use save_box.Prelude.{
  ℕ, suc, Bool, true, false, not, ◌&&◌, ◌||◌, Option, some, none, List, [], ◌∷◌, ◌++◌, map, Result,
  ok, throw, ◌>>=◌, ◌>>◌, length, ltb, ◌==◌, if◌then◌else◌, find_first, member, set_of, or_throw,
}
use save_box.Session.Token.{Text}
use save_box.Upload.Paths
use save_box.Upload.Paths.{SourceFile, UploadFile, text_eq, parse_directory_sources}

abbrev pub folder_batch_limit : ℕ
folder_batch_limit = 1000

pub data Error : Type 0 where
  too_many_folders inconsistent_response : Error
  request_failed : ℕ → Error
  paths : Paths.Error → Error
  not_encrypted : Error

pub record Node : Type 0 where
  pub client_ref : Text
  pub parent_client_ref : Option Text
  pub name : Text

pub record TreeFile : Type 0 where
  pub file_name : Text
  pub folder_client_ref : Option Text

pub record Tree : Type 0 where
  pub nodes : List Node
  pub files : List TreeFile

-- 'root' and '\n'
abbrev pub root_text : Text
root_text = 114 ∷ 111 ∷ 111 ∷ 116 ∷ []

abbrev pub key_of : Option Text → Text → Text
key_of none name = root_text ++ 10 ∷ name
key_of (some ref) name = ref ++ 10 ∷ name

-- `byParentAndName.get(key)`: a node is stored under the key of its parent and name when it is made.
abbrev pub by_parent_and_name : List Node → Text → Option Node
by_parent_and_name nodes key =
    find_first (λ n. text_eq (key_of n.parent_client_ref n.name) key) nodes

-- `segments.slice(0, -1)`
abbrev pub all_but_last : List Text → List Text
all_but_last [] = []
all_but_last (s ∷ []) = []
all_but_last (s ∷ t ∷ ss) = s ∷ all_but_last (t ∷ ss)

-- An item of the request, and of the response.
pub record FolderRequest : Type 0 where
  pub client_ref : Text
  pub parent_client_ref : Option Text
  pub encrypted_name : Text
  pub name_hash : Text

pub record FolderResponse : Type 0 where
  pub client_ref : Text
  pub folder_id : ℕ

pub record Candidate : Type 0 where
  pub file_name : Text
  pub folder_id : Option ℕ

-- What the crypto service returns for a name, and the answer to the request.
pub record Services : Type 0 where
  pub encrypt_name : Text → Option Text
  pub hash_name : Text → Text
  pub batch_create_folders : Option ℕ → List FolderRequest → Result ℕ (List FolderResponse)

module _ (reference : ℕ → Text) where
  abbrev pub new_node : List Node → Option Text → Text → Node
  new_node nodes parent name = record {
    client_ref = reference (length nodes);
    parent_client_ref = parent;
    name = name;
  }

  -- The loop over the folders of one file: the nodes, and the folder where it ends.
  unfoldable pub descend :
      List Node → Option Text → List Text → Result Error (List Node × Option Text)
  descend nodes parent [] = ok (nodes, parent)
  descend nodes parent (name ∷ names) = elim (by_parent_and_name nodes (key_of parent name)) [
    | some n ↦ descend nodes (some n.client_ref) names
    | none ↦ elim (ltb folder_batch_limit (suc (length nodes))) [
      | true ↦ throw too_many_folders
      | false ↦
          let n = new_node nodes parent name in descend (nodes ++ n ∷ []) (some n.client_ref) names
    ]
  ]

  unfoldable pub file_all : List Node → List UploadFile → Result Error Tree
  unfolding descend
  file_all nodes [] = ok (record { nodes = nodes; files = [] })
  file_all nodes (f ∷ files) = do
    (grown, folder) ← descend nodes none (all_but_last f.segments)
    rest ← file_all grown files
    ok (record rest {
      files = record { file_name = f.file_name; folder_client_ref = folder } ∷ rest.files;
    })

  unfoldable pub build_folder_upload_tree : List UploadFile → Result Error Tree
  unfolding file_all
  build_folder_upload_tree files = file_all [] files

unfoldable pub folder_requests : Services → List Node → Result Error (List FolderRequest)
folder_requests services [] = ok []
folder_requests services (n ∷ nodes) = do
  encrypted ← or_throw not_encrypted (services.encrypt_name n.name)
  rest ← folder_requests services nodes
  ok (
      (record {
        client_ref = n.client_ref;
        parent_client_ref = n.parent_client_ref;
        encrypted_name = encrypted;
        name_hash = services.hash_name n.name;
      })
      ∷ rest)

abbrev pub has_id : List ℕ → ℕ → Bool
has_id ids i = member (λ (a b : ℕ). a == b) ids i

-- The loop of `validateResponse`, with `seen` and `ids`; `result` holds the items that were accepted. A
-- response item has a reference, a number and a flag.
unfoldable pub accept_items :
    List Text → List FolderResponse → List Text → List ℕ → Result Error (List Text)
accept_items expected [] seen ids = ok seen
accept_items expected (r ∷ rs) seen ids =
    if not (member text_eq expected r.client_ref)
      || (member text_eq seen r.client_ref || (r.folder_id == 0 || has_id ids r.folder_id))
    then throw inconsistent_response
    else accept_items expected rs (r.client_ref ∷ seen) (r.folder_id ∷ ids)

abbrev pub guard : Bool → Result Error (Unit {0})
guard true = ok tt
guard false = throw inconsistent_response

unfoldable pub validate_response :
    List Text → List FolderResponse → Result Error (List FolderResponse)
unfolding accept_items
validate_response expected response = do
  guard (length response == length expected)
  seen ← accept_items expected response [] []
  guard (length seen == length (set_of text_eq expected))
  ok response

-- `byRef.get(...)`
abbrev pub by_ref : List FolderResponse → Text → Option ℕ
by_ref [] ref = none
by_ref (r ∷ rs) ref =
    let rest = by_ref rs ref in if text_eq ref r.client_ref then some r.folder_id else rest

-- Neither null nor the empty text is looked up.
abbrev pub folder_of : List FolderResponse → Option ℕ → Option Text → Option ℕ
folder_of response root none = root
folder_of response root (some []) = root
folder_of response root (some (c ∷ cs)) = by_ref response (c ∷ cs)

abbrev pub answered : Result ℕ (List FolderResponse) → Result Error (List FolderResponse)
answered (ok response) = ok response
answered (throw status) = throw (request_failed status)

unfoldable pub prepare_tree : Services → Tree → Option ℕ → Result Error (List Candidate)
unfolding folder_requests validate_response
prepare_tree services tree root = do
  folders ← folder_requests services tree.nodes
  response ← answered (services.batch_create_folders root folders)
  accepted ← validate_response (map (λ (n : Node). n.client_ref) tree.nodes) response
  ok (
      map
        (λ (f : TreeFile). record {
          file_name = f.file_name;
          folder_id = folder_of accepted root f.folder_client_ref;
        })
        tree.files)

abbrev pub parsed : Result Paths.Error (List UploadFile) → Result Error (List UploadFile)
parsed (ok files) = ok files
parsed (throw e) = throw (paths e)

unfoldable pub prepare_sources :
    (ℕ → Text) → Services → List SourceFile → Option ℕ → Result Error (List Candidate)
unfolding prepare_tree build_folder_upload_tree
prepare_sources reference services [] root = ok []
prepare_sources reference services (s ∷ sources) root = do
  files ← parsed (parse_directory_sources none (s ∷ sources))
  tree ← build_folder_upload_tree reference files
  prepare_tree services tree root
