-- ===== src/Drive/Uploads/Selection.antt =====
-- Which files of a selection are uploaded alone and which as a batch: `uploadFiles` and
-- `uploadFolderCandidates` of DriveStore (frontend/src/app/features/drive/state/drive.store.ts). A `File` is
-- the number of its object; `is_incompatible` tells the videos that the browser cannot play, and `transcodes`
-- whether `environment.logs.ffmpeg` is set. `rejects` tells the files
-- whose upload alone is rejected: after one of those no batch is started.
pub mod Shares
use save_box.Prelude.{
  ℕ, ◌+◌, Bool, true, false, not, Option, some, none, List, [], ◌∷◌, ◌++◌, map, String, Result, ok,
  throw, count, select, member, ◌==◌, if◌then◌else◌,
}

pub data Locked : Type 0 where
  drive_locked : Locked

-- A file with its folder.
pub record Selected : Type 0 where
  pub file : ℕ
  pub folder_id : Option ℕ

-- `uploadFile` or `uploadBatchFiles`.
pub record FileUpload : Type 0 where
  pub selected : Selected
  pub transfer_id : Option String

pub data Call : Type 0 where
  single : (upload : FileUpload) (group_id : Option String) (refresh : Bool) → Call
  batch : (uploads : List FileUpload) (group_id : Option String) (refresh : Bool) → Call

-- `transferIdByFile.get(file)`: of a file that stands twice in the list, the later id. `ids` gives the one
-- for each index.
unfoldable pub id_of : (ℕ → String) → ℕ → List Selected → ℕ → Option String
id_of ids index [] file = none
id_of ids index (s ∷ selected) file = elim (id_of ids (index + 1) selected file) [
  | some id ↦ some id
  | none ↦ if s.file == file then some (ids index) else none
]

abbrev pub is_same : Selected → Selected → Bool
is_same s t = s.file == t.file

abbrev pub in_folder : Option ℕ → List ℕ → List Selected
in_folder folder [] = []
in_folder folder (f ∷ files) = record { file = f; folder_id = folder } ∷ in_folder folder files

module _ (transcodes : Bool) (is_incompatible : ℕ → Bool) where
  unfoldable pub individual : List Selected → List Selected
  individual files = if transcodes then select (λ s. is_incompatible s.file) files else []

  -- `files.filter(file => !individualVideoFiles.includes(file))`
  unfoldable pub batched : List Selected → List Selected
  unfolding individual
  batched files = select (λ s. not (member is_same (individual files) s)) files

  module _ (ids : ℕ → String) where
    abbrev pub upload_of : List Selected → Selected → FileUpload
    upload_of files s = record { selected = s; transfer_id = id_of ids 0 files s.file }

    abbrev pub singles : List Selected → Option String → Bool → List Selected → List Call
    singles files group refresh [] = []
    singles files group refresh (s ∷ chosen) =
        single (upload_of files s) group refresh ∷ singles files group refresh chosen

    abbrev pub batch_call : List Selected → Option String → List Selected → List Call
    batch_call files group [] = []
    batch_call files group (s ∷ []) = single (upload_of files s) group true ∷ []
    batch_call files group (s ∷ t ∷ rest) =
        batch (map (upload_of files) (s ∷ t ∷ rest)) group true ∷ []

    -- What follows the `await Promise.all` over the uploads of `alone`.
    abbrev pub after_all : (Selected → Bool) → List Selected → List Call → List Call
    after_all rejects alone calls = if count rejects alone == 0 then calls else []

    -- The calls that `uploadFiles` makes, with the id of its group.
    unfoldable pub upload_files :
        (Selected → Bool) → Bool → String → Option ℕ → List ℕ → Result Locked (List Call)
    unfolding batched id_of
    upload_files rejects unlocked group folder [] = ok []
    upload_files rejects unlocked group folder (f ∷ []) = ok (
        single (record { selected = record { file = f; folder_id = folder }; transfer_id = none })
          none true
        ∷ [])
    upload_files rejects unlocked group folder (f ∷ g ∷ rest) =
        let files = in_folder folder (f ∷ g ∷ rest) in
        if unlocked
        then ok (
            singles files (some group) true (individual files)
            ++ after_all rejects (individual files) (batch_call files (some group) (batched files)))
        else throw drive_locked

    abbrev pub group_of : String → List Selected → Option String
    group_of group [] = none
    group_of group (s ∷ []) = none
    group_of group (s ∷ t ∷ rest) = some group

    abbrev pub folder_batch : List Selected → Option String → List Selected → List Call
    folder_batch files group [] = []
    folder_batch files group (s ∷ rest) = batch (map (upload_of files) (s ∷ rest)) group false ∷ []

    -- The calls that `uploadFolderCandidates` makes.
    unfoldable pub upload_folder_candidates : (Selected → Bool) → String → List Selected → List Call
    unfolding batched id_of
    upload_folder_candidates rejects group files =
        singles files (group_of group files) false (individual files)
        ++ after_all rejects (individual files)
            (folder_batch files (group_of group files) (batched files))
