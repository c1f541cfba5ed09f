-- ===== src/Upload/Batch/Response.antt =====
-- `duplicateHashes` and `validateResponse` of UploadBatchCoordinatorService
-- (frontend/src/app/features/drive/upload/upload-batch-coordinator.service.ts).
use text.Mathlib.Text.{◌==◌ as str_eq}
use save_box.Prelude.{
  count, ℕ, Bool, true, false, not, ◌&&◌, Option, some, none, List, [], ◌∷◌, String, Result, ok,
  throw, ◌>>◌, length, ltb, ◌==◌, if◌then◌else◌,
}
use save_box.Upload.Engine.{Provider, local, google_drive, includes}
use save_box.Upload.Batch.Types.{
  Candidate, PreparedCandidate, ResponseItem, Error, inconsistent, wrong_provider, invalid_provider,
  incomplete_google,
}

abbrev pub candidates_of : List PreparedCandidate → List Candidate
candidates_of [] = []
candidates_of (i ∷ items) = i.candidate ∷ candidates_of items

abbrev pub hashes_of : List PreparedCandidate → List String
hashes_of [] = []
hashes_of (i ∷ items) = i.prepared.name_hash ∷ hashes_of items

abbrev pub has : List String → String → Bool
has [] h = false
has (g ∷ gs) h = if str_eq h g then true else has gs h

unfoldable pub is_duplicate : List PreparedCandidate → String → Bool
is_duplicate items h = ltb 1 (count (λ g. str_eq h g) (hashes_of items))

abbrev pub truthy : Option String → Bool
truthy none = false
truthy (some s) = not (str_eq s "")

abbrev pub same_provider : Option Provider → Option Provider → Bool
same_provider (some local) (some local) = true
same_provider (some google_drive) (some google_drive) = true
same_provider none none = true
same_provider _ _ = false

-- `providers.get(hash)`: the last candidate with the hash.
abbrev pub provider_of : List PreparedCandidate → String → Option Provider
provider_of [] h = none
provider_of (i ∷ items) h = elim (provider_of items h) [
  | some p ↦ some p
  | none ↦ if str_eq h i.prepared.name_hash then some i.candidate.provider else none
]

abbrev pub complete : ResponseItem → Bool
complete r = elim r.storage_provider [
  | none ↦ true
  | some local ↦ true
  | some google_drive ↦ truthy r.access_token && truthy r.root_folder_id
]

abbrev pub known : Option Provider → Bool
known none = false
known (some _) = true

abbrev pub guard : Bool → Error → Result Error (Unit {0})
guard true e = ok tt
guard false e = throw e

unfoldable pub check_item :
    List PreparedCandidate → List String → List ℕ → ResponseItem → Result Error (Unit {0})
check_item items hashes ids r = do
  guard
      (not (r.file_id == 0)
        && (not (str_eq r.name_hash "")
            && (has (hashes_of items) r.name_hash
                && (not (has hashes r.name_hash) && not (includes ids r.file_id)))))
      inconsistent
  guard (same_provider (provider_of items r.name_hash) r.storage_provider) wrong_provider
  guard (known r.storage_provider) invalid_provider
  guard (complete r) incomplete_google

-- The loop, with the hashes and the ids that it has seen.
unfoldable pub check_items :
    List PreparedCandidate → List String → List ℕ → List ResponseItem → Result Error (Unit {0})
unfolding check_item
check_items items hashes ids [] = ok tt
check_items items hashes ids (r ∷ rs) = do
  check_item items hashes ids r
  check_items items (r.name_hash ∷ hashes) (r.file_id ∷ ids) rs

unfoldable pub validate_response :
    List PreparedCandidate → List ResponseItem → Result Error (Unit {0})
unfolding check_items
validate_response items response = do
  guard (length response == length items) inconsistent
  check_items items [] [] response

-- `byHash.get(hash)`: the last item with the hash.
unfoldable pub by_hash : List ResponseItem → String → Option ResponseItem
by_hash [] h = none
by_hash (r ∷ rs) h = elim (by_hash rs h) [
  | some later ↦ some later
  | none ↦ if str_eq h r.name_hash then some r else none
]
