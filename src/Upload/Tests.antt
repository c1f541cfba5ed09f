-- ===== src/Upload/Tests.antt =====
-- Uploads at concrete inputs.
use save_box.Prelude.{
  count, ℕ, ◌≤◌, ◌≡◌, refl, Bool, true, false, Option, some, none, List, [], ◌∷◌, ◌++◌, ok, throw,
  arith, ◌==◌,
}
use save_box.Prelude.Words.{Bytes}
use save_box.Upload.Engine
use save_box.Upload.Engine.{
  upload_local, total_chunks, chunk_at, multipart, local, google_drive, upload_google_drive,
  response, stopped,
}
use save_box.Upload.Engine.Complete.{fetch_all, fetch_all-upload_local}
use save_box.Upload.Paths
use save_box.Upload.Paths.{SourceFile, UploadFile, parse_directory_sources, folder_tree_depth_limit}
use save_box.Upload.Paths.Safe.{AreSafe, uploads_of, parse_directory_sources-AreSafe}
use save_box.Upload.Queue.{run, count-run}
use save_box.Upload.Batch.Types
use save_box.Upload.Batch.Types.{
  Candidate, Prepared, PreparedCandidate, ResponseItem, State, Client, http,
}
use save_box.Upload.Batch.Response.{by_hash, validate_response}
use save_box.Upload.Batch.Process.{process}
use save_box.Upload.Batch.Validation.{Answers, validate_response-Answers}
use save_box.Upload.Batch.Account.{live, reported, selected, process-reported}
use save_box.Upload.Batch.Tally.{IsTallied, process-IsTallied}

abbrev blob : Bytes
blob = 7 ∷ 8 ∷ 9 ∷ []

never : ℕ → Bool
never i = false

no_failure : ℕ → Option ℕ
no_failure i = none

program : Unit {0}
unfolding never no_failure upload_local fetch_all multipart run process validate_response by_hash
program = tt

fetch_all-upload_local_example :
    fetch_all
      ([] ++ (upload_local blob (total_chunks blob) (some []) never no_failure).sent)
      (total_chunks blob)
      0
    ≡ some blob
unfolding program
fetch_all-upload_local_example = fetch_all-upload_local blob [] never no_failure tt refl

id_missing :
    (upload_google_drive false false (response none) (λ _. none)).1 ≡ throw Engine.id_missing
unfolding upload_google_drive
id_missing = refl

-- The second task ends first.
second_first : run {A = ℕ} (λ n. false) 2 (λ round. 1) (10 ∷ 20 ∷ 30 ∷ []) ≡ 20 ∷ 30 ∷ 10 ∷ []
unfolding program
second_first = refl

count-run_example :
    count (λ (n : ℕ). true) (run (λ (n : ℕ). n == 30) 2 (λ round. 1) (10 ∷ 20 ∷ 30 ∷ 40 ∷ [])) ≡ 4
count-run_example =
    count-run (λ (n : ℕ). true) (λ (n : ℕ). n == 30) (λ round. 1) 2 (10 ∷ 20 ∷ 30 ∷ 40 ∷ [])
      (omega arith)

abbrev first : Candidate
first = record { transfer_id = "t1"; folder_id = none; provider = local; cancelled = false }

abbrev second : Candidate
second = record {
  transfer_id = "t2";
  folder_id = some 4;
  provider = google_drive;
  cancelled = false;
}

abbrev prepared_first : PreparedCandidate
prepared_first = record {
  candidate = first;
  prepared = record {
    encrypted_name = "n1";
    name_hash = "h1";
    encrypted_fdk = "k";
    encrypted_size = 9;
    total_chunks = 1;
  };
}

abbrev prepared_second : PreparedCandidate
prepared_second = record {
  candidate = second;
  prepared = record {
    encrypted_name = "n2";
    name_hash = "h2";
    encrypted_fdk = "k";
    encrypted_size = 9;
    total_chunks = 1;
  };
}

abbrev answer : List ResponseItem
answer =
    (record {
      file_id = 8;
      name_hash = "h2";
      storage_provider = some google_drive;
      access_token = some "a";
      root_folder_id = some "r";
    })
    ∷ (record {
      file_id = 7;
      name_hash = "h1";
      storage_provider = some local;
      access_token = none;
      root_folder_id = none;
    })
    ∷ []

-- The server is reached, but answers only for the two candidates together.
abbrev client : Client
client = record {
  prepare_upload = λ c.
      ok (elim c.folder_id [ none ↦ prepared_first.prepared | some _ ↦ prepared_second.prepared ]);
  batch_init_uploads = λ items. ok answer;
  execute = λ i r. ok (elim i.candidate.folder_id [ none ↦ true | some _ ↦ false ]);
  schedule = λ window. record {
    local_picks = λ round. 0;
    google_picks = λ round. 0;
    turns = λ round. false;
  };
}

both_end :
    (process client (first ∷ second ∷ [])).reports
    ≡ (record { transfer_id = "t1"; status = Types.paused })
      ∷ (record { transfer_id = "t2"; status = Types.success })
      ∷ []
unfolding program
both_end = refl

validate_response-Answers_example :
    (r : ResponseItem) × (by_hash answer "h1" ≡ some r)
    × Answers (prepared_first ∷ prepared_second ∷ []) "h1" r
unfolding program
validate_response-Answers_example =
    validate_response-Answers (prepared_first ∷ prepared_second ∷ []) answer "h1" refl refl

process-reported_example :
    (live (λ id. true) (first ∷ second ∷ [])
      ≤ reported (λ id. true) (process client (first ∷ second ∷ [])))
    × (reported (λ id. true) (process client (first ∷ second ∷ []))
        ≤ selected (λ id. true) (first ∷ second ∷ []))
process-reported_example = process-reported (λ id. true) client (first ∷ second ∷ [])

process-IsTallied_example : IsTallied 2 (process client (first ∷ second ∷ []))
process-IsTallied_example = process-IsTallied client (first ∷ second ∷ [])

-- "d/a", and "d\\b" as Windows writes it.
abbrev sources : List SourceFile
sources =
    (record { file_name = b'a' ∷ []; relative_path = b'd' ∷ 47 ∷ b'a' ∷ [] })
    ∷ (record { file_name = b'b' ∷ []; relative_path = b'd' ∷ 92 ∷ b'b' ∷ [] })
    ∷ []

abbrev files : List UploadFile
files =
    (record { file_name = b'a' ∷ []; segments = (b'd' ∷ []) ∷ (b'a' ∷ []) ∷ [] })
    ∷ (record { file_name = b'b' ∷ []; segments = (b'd' ∷ []) ∷ (b'b' ∷ []) ∷ [] })
    ∷ []

-- "../a"
parent_path :
    parse_directory_sources none
      ((record { file_name = b'a' ∷ []; relative_path = 46 ∷ 46 ∷ 47 ∷ b'a' ∷ [] }) ∷ [])
    ≡ throw Paths.invalid_path
unfolding parse_directory_sources
parent_path = refl

parse_directory_sources-AreSafe_example :
    AreSafe folder_tree_depth_limit [] files × (files ≡ uploads_of sources)
unfolding parse_directory_sources
parse_directory_sources-AreSafe_example = parse_directory_sources-AreSafe sources files refl
