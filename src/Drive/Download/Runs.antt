-- ===== src/Drive/Download/Runs.antt =====
-- What the runs of a download come to, from a state where a chunk begins.
use save_box.Prelude.{
  ℕ, zero, suc, ◌+◌, ◌-◌, ◌≤◌, ◌<◌, ◌≡◌, refl, ap, ◌∙◌, ◌⊎◌, Bool, false, inl, inr, List, [], ◌∷◌,
  ◌++◌, ok, throw, arith, length, take, ltb, ltb→lt, ltb→le, le→ltb, Bool-cases, take_all,
}
use save_box.Prelude.Words.{Bytes, slice}
use save_box.Crypto.Platform.{nonce_size, key_size, Platform, IsSound}
use save_box.Drive.Download.{
  DownloadState, Server, Attempt, Outcome, saved, failed, paused, request_failed, encrypted_size,
  run_download_loop, run_attempts,
}
use save_box.Drive.Download.Round.{IsAt, take_chunk-IsAt}

-- The server sends the range of the blob that was asked for, or the request fails.
abbrev pub IsHonest : Bytes → Server → Type 0
IsHonest blob server =
    (round start last : ℕ)
    → (server round start last ≡ ok (slice blob start (last + 1)))
      ⊎ ((status : ℕ) × (server round start last ≡ throw status))

abbrev pub AreHonest : Bytes → List Attempt → Type 0
AreHonest blob [] = Unit
AreHonest blob (a ∷ attempts) = IsHonest blob a.server × AreHonest blob attempts

-- How a run may end: with the file, at a pause, or by a failed request.
abbrev pub EndsWell : Bytes → Outcome → Type 0
EndsWell file o =
    (o ≡ saved file) ⊎ (o ≡ paused) ⊎ ((status : ℕ) × (o ≡ failed (request_failed status)))

module _ (p : Platform) (sound : IsSound p) (file blob base_nonce key : Bytes)
    (sized : length base_nonce ≡ nonce_size) (keyed : length key ≡ key_size) where
  abbrev At : DownloadState → Type 0
  At s = IsAt p sound file blob base_nonce key sized keyed s

  run_download_loop-done :
      (server : Server) (pauses : ℕ → Bool) (fuel : ℕ) (s : DownloadState)
      → At s
      → s.expected_size ≤ s.decrypted_bytes
      → ((run_download_loop p server pauses (suc fuel) s).outcome ≡ saved file)
  unfolding run_download_loop
  run_download_loop-done server pauses fuel s h done =
      let all : take h.offset file ≡ file =
        take_all h.offset file (omega (arith, h.counted, h.expected, done)) in
      rw (le→ltb _ _ done, run_download_loop) (ap saved (h.decrypted ∙ all))

  run_download_loop-IsAt :
      (server : Server) (pauses : ℕ → Bool) (fuel : ℕ) (s : DownloadState)
      → IsHonest blob server
      → At s
      → s.expected_size - s.decrypted_bytes < fuel
      → At (run_download_loop p server pauses fuel s).state
        × ((run_download_loop p server pauses fuel s).state.expected_size ≡ s.expected_size)
        × EndsWell file (run_download_loop p server pauses fuel s).outcome
  unfolding run_download_loop
  run_download_loop-IsAt server pauses zero s honest h enough = absurd (omega arith)
  run_download_loop-IsAt server pauses (suc fuel) s honest h enough =
      elim (Bool-cases (ltb s.decrypted_bytes s.expected_size)) [
        | inr done ↦
            let ended = run_download_loop-done server pauses fuel s h (ltb→le _ _ done) in
            rw (done, run_download_loop) (h, refl, inl (rw (done, run_download_loop) at ended))
        | inl more ↦ elim (Bool-cases (pauses fuel)) [
          | inl pause ↦ rw (more, run_download_loop, pause) (h, refl, inr (inl refl))
          | inr go ↦ elim (honest fuel s.current_offset (s.current_offset + encrypted_size s - 1)) [
            | inr (status, failed') ↦
                rw (more, run_download_loop, go, failed') (h, refl, inr (inr (status, refl)))
            | inl sent ↦
                let (next, taken, there, same, ahead) =
                  take_chunk-IsAt p sound file blob base_nonce key sized keyed s h
                    (ltb→lt _ _ more) in
                let (at, kept, well) =
                  run_download_loop-IsAt server pauses fuel next honest there (omega arith) in
                rw (more, run_download_loop, go, sent, taken) (at, kept ∙ same, well)
          ]
        ]
      ]

  run_download_loop-saves :
      (server : Server) (pauses : ℕ → Bool) (fuel : ℕ) (s : DownloadState)
      → ((round start last : ℕ) → server round start last ≡ ok (slice blob start (last + 1)))
      → ((round : ℕ) → pauses round ≡ false)
      → At s
      → s.expected_size - s.decrypted_bytes < fuel
      → (run_download_loop p server pauses fuel s).outcome ≡ saved file
  unfolding run_download_loop
  run_download_loop-saves server pauses zero s answers goes h enough = absurd (omega arith)
  run_download_loop-saves server pauses (suc fuel) s answers goes h enough =
      elim (Bool-cases (ltb s.decrypted_bytes s.expected_size)) [
        | inr done ↦ run_download_loop-done server pauses fuel s h (ltb→le _ _ done)
        | inl more ↦
            let sent = answers fuel s.current_offset (s.current_offset + encrypted_size s - 1) in
            let (next, taken, there, same, ahead) =
              take_chunk-IsAt p sound file blob base_nonce key sized keyed s h (ltb→lt _ _ more) in
            rw (more, run_download_loop, goes fuel, sent, taken)
              (run_download_loop-saves server pauses fuel next answers goes there (omega arith))
      ]

  pub run_attempts-EndsWell :
      (s : DownloadState) (a : Attempt) (attempts : List Attempt)
      → AreHonest blob (a ∷ attempts)
      → At s
      → EndsWell file (run_attempts p s a attempts)
  unfolding run_attempts
  run_attempts-EndsWell s a [] honest h =
      (run_download_loop-IsAt a.server a.pauses (suc s.expected_size) s honest.0 h (omega arith)).2
  run_attempts-EndsWell s a (b ∷ attempts) honest h =
      let run = run_download_loop p a.server a.pauses (suc s.expected_size) s in
      let (at, kept, well) =
        run_download_loop-IsAt a.server a.pauses (suc s.expected_size) s honest.0 h (omega arith) in
      let later = run_attempts-EndsWell run.state b attempts honest.1 at in
      elim well [
        | inl whole ↦ rw (run_attempts, whole) (inl refl)
        | inr (inl stopped) ↦ rw (run_attempts, stopped) later
        | inr (inr (status, wrong)) ↦ rw (run_attempts, wrong) (inr (inr (status, refl)))
      ]

  pub run_attempts-saves :
      (s : DownloadState) (a b : Attempt) (attempts : List Attempt)
      → AreHonest blob (a ∷ attempts)
      → ((round start last : ℕ) → b.server round start last ≡ ok (slice blob start (last + 1)))
      → ((round : ℕ) → b.pauses round ≡ false)
      → At s
      → (run_attempts p s a (attempts ++ b ∷ []) ≡ saved file)
        ⊎ ((status : ℕ) × (run_attempts p s a (attempts ++ b ∷ [])
              ≡ failed (request_failed status)))
  unfolding run_attempts
  run_attempts-saves s a b [] honest answers goes h =
      let run = run_download_loop p a.server a.pauses (suc s.expected_size) s in
      let (at, kept, well) =
        run_download_loop-IsAt a.server a.pauses (suc s.expected_size) s honest.0 h (omega arith) in
      elim well [
        | inl whole ↦ rw (run_attempts, whole) (inl refl)
        | inr (inl stopped) ↦
            rw (run_attempts, stopped)
              (inl (
                run_download_loop-saves b.server b.pauses (suc run.state.expected_size) run.state
                  answers goes at (omega arith)))
        | inr (inr (status, wrong)) ↦ rw (run_attempts, wrong) (inr (status, refl))
      ]
  run_attempts-saves s a b (c ∷ attempts) honest answers goes h =
      let run = run_download_loop p a.server a.pauses (suc s.expected_size) s in
      let (at, kept, well) =
        run_download_loop-IsAt a.server a.pauses (suc s.expected_size) s honest.0 h (omega arith) in
      let later = run_attempts-saves run.state c b attempts honest.1 answers goes at in
      elim well [
        | inl whole ↦ rw (run_attempts, whole) (inl refl)
        | inr (inl stopped) ↦ rw (run_attempts, stopped) later
        | inr (inr (status, wrong)) ↦ rw (run_attempts, wrong) (inr (status, refl))
      ]
