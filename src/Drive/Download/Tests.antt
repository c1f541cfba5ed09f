-- ===== src/Drive/Download/Tests.antt =====
-- A download at a concrete file, over the toy platform: the first request fails, or it pauses after one round.
use save_box.Prelude.{
  ℕ, ◌+◌, ◌≡◌, refl, true, false, inl, inr, none, [], ◌∷◌, ◌++◌, ok, throw, ◌⊎◌, arith, flatten,
  replicate,
}
use save_box.Prelude.Words.{Bytes, slice}
use save_box.Crypto.Toy.{toy, toy-IsSound}
use save_box.Crypto.Nonce.{derive_chunk_nonce}
use save_box.Crypto.Kasumi.{encrypt_file, extract_metadata, has_metadata, decrypt_file_chunk}
use save_box.Drive.Download.{
  Attempt, Server, DownloadState, saved, failed, request_failed, header_fetch_size, start_download,
  run_attempts, run_download_loop, take_chunk,
}
use save_box.Drive.Download.Runs.{EndsWell}
use save_box.Drive.Download.Whole.{run_attempts-encrypt_file, run_attempts-encrypt_file_saves}

abbrev base : Bytes
base = replicate 24 7

abbrev fdk : Bytes
fdk = replicate 32 9

abbrev file : Bytes
file = 1 ∷ 2 ∷ 3 ∷ []

abbrev blob : Bytes
blob = base ++ ((3 ∷ replicate 7 0) ++ (replicate 16 206 ++ file))

abbrev whole : Server
whole round first last = ok (slice blob first (last + 1))

abbrev goes_on : Attempt
goes_on = record { server = whole; pauses = λ round. false }

abbrev stops : Attempt
stops = record { server = whole; pauses = λ round. true }

abbrev down : Attempt
down = record { server = λ round first last. throw 503; pauses = λ round. false }

abbrev begun : DownloadState
begun = record {
  fdk = fdk;
  base_nonce = base;
  expected_size = 3;
  plaintext_chunks = [];
  decrypted_bytes = 0;
  current_offset = 32;
  chunk_index = 0;
}

program : Unit {0}
unfolding toy encrypt_file extract_metadata has_metadata derive_chunk_nonce start_download
    run_attempts run_download_loop take_chunk flatten decrypt_file_chunk
program = tt

resumed_saves : run_attempts toy begun stops (goes_on ∷ []) ≡ saved file
unfolding program
resumed_saves = refl

broken_fails : run_attempts toy begun down (goes_on ∷ []) ≡ failed (request_failed 503)
unfolding program
broken_fails = refl

run_attempts-encrypt_file_example :
    (s : DownloadState) × (start_download toy (slice blob 0 header_fetch_size) fdk ≡ ok s)
    × EndsWell file (run_attempts toy s stops (goes_on ∷ []))
unfolding program
run_attempts-encrypt_file_example =
    run_attempts-encrypt_file toy toy-IsSound file base fdk none refl refl (omega arith) blob stops
      (goes_on ∷ []) (inr (refl, refl)) refl
      ((λ round first last. inl refl), ((λ round first last. inl refl), tt))

run_attempts-encrypt_file_saves_example :
    (s : DownloadState) × (start_download toy (slice blob 0 header_fetch_size) fdk ≡ ok s)
    × ((run_attempts toy s stops (goes_on ∷ []) ≡ saved file)
        ⊎ ((status : ℕ) × (run_attempts toy s stops (goes_on ∷ [])
              ≡ failed (request_failed status))))
unfolding program
run_attempts-encrypt_file_saves_example =
    run_attempts-encrypt_file_saves toy toy-IsSound file base fdk none refl refl (omega arith) blob
      stops goes_on [] (inr (refl, refl)) refl ((λ round first last. inl refl), tt)
      (λ round first last. refl) (λ round. refl)
