-- ===== src/Upload/Engine.antt =====
-- UploadEngineService (frontend/src/app/features/drive/upload/upload-engine.service.ts). The answers
-- to requests and to `shouldPause() || shouldCancel()` are arguments, by the round in which they are read.
pub mod Complete
pub mod Multipart
use save_box.Prelude.{
  ℕ, zero, suc, ◌+◌, ◌-◌, ◌*◌, ◌/◌, min, Bool, true, false, ◌||◌, Option, some, none, List, [], ◌∷◌,
  ◌++◌, String, Result, ok, throw, length, ◌==◌, if◌then◌else◌, or_throw, ◌>>=◌, ◌>>◌,
}
use save_box.Prelude.Words.{Bytes, slice, zeros, write_at}
use save_box.Crypto.Platform.{Platform}

abbrev pub chunk_size : ℕ
chunk_size = 4 * 1024 * 1024

-- `Math.ceil(encryptedBlob.size / CHUNK_SIZE)`
abbrev pub total_chunks : Bytes → ℕ
total_chunks blob = (length blob + (chunk_size - 1)) / chunk_size

pub record Update : Type 0 where
  pub progress : ℕ
  pub transferred_bytes : ℕ
  pub total_bytes : ℕ

pub data Provider : Type 0 where
  local google_drive : Provider

-- A failed request by its status, and a response of Google without the id of the file.
pub data Error : Type 0 where
  request_failed : ℕ → Error
  paused_by_error id_missing body_overflow : Error

-- What a run sent, reported and returned; `ok true` stands for `{ paused: true }`.
pub record Run : Type 0 where
  pub sent : List (ℕ × Bytes)
  pub updates : List Update
  pub result : Result Error Bool

abbrev pub ended : Result Error Bool → Run
ended r = record { sent = []; updates = []; result = r }

abbrev pub includes : List ℕ → ℕ → Bool
includes [] i = false
includes (j ∷ js) i = if i == j then true else includes js i

abbrev pub chunk_at : Bytes → ℕ → Bytes
chunk_at blob i = slice blob (i * chunk_size) (min (i * chunk_size + chunk_size) (length blob))

-- Of round `i`. `Math.round` of the percentage, in exact numbers.
abbrev pub update_at : Bytes → ℕ → ℕ → Update
update_at blob total i = record {
  progress = (200 * (i + 1) + total) / (2 * total);
  transferred_bytes = min ((i + 1) * chunk_size) (length blob);
  total_bytes = length blob;
}

-- The rounds that are left, from round `i`.
unfoldable pub upload_rounds : Bytes → ℕ → List ℕ → (ℕ → Bool) → (ℕ → Option ℕ) → ℕ → ℕ → Run
upload_rounds blob total uploaded stops fails zero i = ended (ok false)
upload_rounds blob total uploaded stops fails (suc left) i =
    let rest = upload_rounds blob total uploaded stops fails left (i + 1) in
    let reported = update_at blob total i ∷ rest.updates in
    if stops i
    then ended (ok true)
    else if includes uploaded i
    then record rest { updates = reported }
    else elim (fails i) [
      | some status ↦ record (ended (throw (request_failed status))) {
        sent = (i, chunk_at blob i) ∷ [];
      }
      | none ↦ record rest { sent = (i, chunk_at blob i) ∷ rest.sent; updates = reported }
    ]

-- What the server reports as uploaded; every chunk is sent again if it cannot be asked.
abbrev pub reported_chunks : Option (List ℕ) → List ℕ
reported_chunks none = []
reported_chunks (some indices) = indices

unfoldable pub upload_local : Bytes → ℕ → Option (List ℕ) → (ℕ → Bool) → (ℕ → Option ℕ) → Run
unfolding upload_rounds
upload_local blob total reply stops fails =
    upload_rounds blob total (reported_chunks reply) stops fails total 0

-- The loop that copies the parts of a multipart body into its buffer.
unfoldable pub fill : Bytes → ℕ → List Bytes → Option Bytes
fill body offset [] = some body
fill body offset (chunk ∷ chunks) = elim (write_at body offset chunk) [
  | none ↦ none
  | some more ↦ fill more (offset + length chunk) chunks
]

unfoldable pub total_size : List Bytes → ℕ
total_size [] = 0
total_size (chunk ∷ chunks) = length chunk + total_size chunks

unfoldable pub multipart : List Bytes → Option Bytes
unfolding fill total_size
multipart chunks = fill (zeros (total_size chunks)) 0 chunks

-- How the post to Google ends: with the `id` of the response, with an error whose message is
-- "PAUSED", or with another.
pub data Posted : Type 0 where
  response : Option String → Posted
  stopped : Posted
  refused : ℕ → Posted

-- Whether the control stops it before and after the post, how the post and the finalisation end.
-- The result says as well which id was finalised.
unfoldable pub upload_google_drive :
    Bool → Bool → Posted → (String → Option ℕ) → Option String × Result Error Bool
upload_google_drive true after posted finalize = (none, ok true)
upload_google_drive false after stopped finalize = (none, ok true)
upload_google_drive false after (refused status) finalize = (none, throw (request_failed status))
upload_google_drive false true (response id) finalize = (none, ok true)
upload_google_drive false false (response none) finalize = (none, throw id_missing)
upload_google_drive false false (response (some id)) finalize = elim (finalize id) [
  | some status ↦ (some id, throw (request_failed status))
  | none ↦ (some id, ok false)
]
