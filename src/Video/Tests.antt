-- ===== src/Video/Tests.antt =====
-- A video at concrete inputs.
use save_box.Prelude.{
  ℕ, zero, suc, ◌+◌, ◌-◌, ◌*◌, ◌≤◌, ◌<◌, ◌≡◌, refl, true, false, ◌⊎◌, some, none, List, [], ◌∷◌,
  ◌++◌, ok, length, arith, flatten, replicate, In,
}
use save_box.Prelude.Words.{Bytes, slice}
use save_box.Crypto.Platform.{mac_size}
use save_box.Crypto.Toy.{toy, toy-IsSound}
use save_box.Crypto.Nonce.{derive_chunk_nonce}
use save_box.Crypto.Kasumi.{chunk_size, encrypt_chunks}
use save_box.Crypto.Worker.{State as WorkerState}
use save_box.Video.{TimeRange, Track, Stream, Pipeline}
use save_box.Video.Buffered.{
  contiguous_end, is_covered, compute_buffered_ahead, ahead_from, already_buffered,
}
use save_box.Video.Buffered.Tracks.{compute_buffered_ahead-already_buffered}
use save_box.Video.Schedule.{
  schedule_next_chunk, scheduled, next_pipeline, on_timeupdate_tick, inject, destroy_stream,
}
use save_box.Video.Seeking.{seek_timer, on_seeking}
use save_box.Video.Run.{
  started, chunks_of, begin, next, primed, ticked, here, more, played, seeking, seek_timed,
}
use save_box.Video.Run.Counters.{Inv, started-Inv}
use save_box.Video.Run.Order.{byte_at, Tiles, requested-Tiles}
use save_box.Video.Run.Ending.{settle_all, IsOver, settle_all-started}
use save_box.Video.Run.Silence.{Reach-destroy_stream}
use save_box.Video.Blocks.{run_chunk_pipeline}
use save_box.Video.Blocks.Decrypted.{messages_from, run_chunk_pipeline-encrypt_chunks}
use save_box.Video.Bootstrap.{
  Bootstrap, bootstrap_last_chunk, get_uint32, moov_code, whole_moov, scan_moov,
}
use save_box.Video.Bootstrap.Moov.{bootstrap_last_chunk-moov}
use save_box.Video.Fetch.{Answer, blob, fetch_error, fetch_range}
use save_box.Video.Fetch.Retries.{fetch_range-blob}

abbrev near : TimeRange
near = record { from = 0; to = 4000 }

abbrev close_by : TimeRange
close_by = record { from = 4300; to = 9000 }

abbrev far_off : TimeRange
far_off = record { from = 20000; to = 30000 }

abbrev ranges : List TimeRange
ranges = near ∷ close_by ∷ far_off ∷ []

buffered_to_nine : contiguous_end 1000 ranges ≡ 9000
unfolding contiguous_end
buffered_to_nine = refl

-- The picture is buffered to 9 seconds, the sound to 4.
abbrev picture : Track
picture = record { buffered = ranges; updating = false }

abbrev sound : Track
sound = record { buffered = near ∷ []; updating = false }

compute_buffered_ahead-already_buffered_example :
    (((compute_buffered_ahead (picture ∷ sound ∷ []) 1000 ≡ 0)
        × (already_buffered 1000 (picture ∷ sound ∷ []) ≡ false))
      ⊎ ((t : Track) × In t (picture ∷ sound ∷ [])
          × ((u : ℕ)
              → 1000 ≤ u
              → u < 1000 + compute_buffered_ahead (picture ∷ sound ∷ []) 1000
              → is_covered u t.buffered ≡ true)
          × (is_covered (1000 + compute_buffered_ahead (picture ∷ sound ∷ []) 1000) t.buffered
              ≡ false)))
    × ((t : Track)
        → In t (picture ∷ sound ∷ [])
        → contiguous_end 1000 t.buffered
          ≤ 1000 + compute_buffered_ahead (picture ∷ sound ∷ []) 1000)
compute_buffered_ahead-already_buffered_example =
    compute_buffered_ahead-already_buffered 1000 (picture ∷ sound ∷ [])
      ((omega arith, (omega arith, (omega arith, tt))), ((omega arith, tt), tt))

-- Two tracks that hold nothing yet.
abbrev tracks : List Track
tracks =
    record { buffered = []; updating = false } ∷ record { buffered = []; updating = false } ∷ []

-- Ten million bytes in three chunks.
abbrev start : Stream
start = started false 10000000 32 0 0 tracks

abbrev after_tick : Stream
after_tick = on_timeupdate_tick 0 (schedule_next_chunk start)

ticks_to_three : after_tick.active_downloads ≡ 3
unfolding started chunks_of schedule_next_chunk scheduled next_pipeline on_timeupdate_tick inject
    compute_buffered_ahead ahead_from
ticks_to_three = refl

requested-Tiles_example :
    Tiles 32 10000000 0 after_tick.next_chunk_index after_tick.requested
    × (after_tick.next_chunk_index ≤ chunks_of 10000000)
    × (byte_at 32 10000000 (chunks_of 10000000) ≡ 32 + 10000000 + chunks_of 10000000 * mac_size)
requested-Tiles_example =
    requested-Tiles false 10000000 32 0 0 tracks after_tick (omega arith)
      (next (next begin primed) (ticked 0))

-- Playback moves and five seconds are appended before the last pipeline ends.
abbrev times : ℕ → ℕ
times zero = 1000
times (suc i) = 0

abbrev growing : ℕ → List Track
growing zero = record { buffered = record { from = 0; to = 6000 } ∷ []; updating = false } ∷ []
growing (suc i) = tracks

little_ahead : (i : ℕ) → compute_buffered_ahead (growing i) (times i) < 20000
unfolding compute_buffered_ahead ahead_from contiguous_end
little_ahead zero = omega arith
little_ahead (suc i) = omega arith

settle_all-started_example : IsOver (
    settle_all
      (chunks_of 10000000 - 0)
      times
      growing
      (schedule_next_chunk (started false 10000000 32 0 0 (growing (chunks_of 10000000 - 0)))))
unfolding chunks_of
settle_all-started_example =
    settle_all-started false 10000000 32 0 0 times growing (omega arith) little_ahead

abbrev after_seek : Stream
after_seek = seek_timer 5000 (on_seeking (schedule_next_chunk start))

started-Inv_example : Inv after_seek
started-Inv_example =
    started-Inv false 10000000 32 0 0 tracks after_seek (omega arith)
      (more (more (more here (played primed)) seeking) (seek_timed 5000 refl))

abbrev alive : Stream
alive = schedule_next_chunk start

abbrev dead : Stream
dead = destroy_stream alive

abbrev later : Stream
later = seek_timer 5000 (on_seeking dead)

Reach-destroy_stream_example :
    (later.requested ≡ alive.requested)
    × (later.current_fetches ≡ [])
    × (later.aborted_fetches ≡ alive.aborted_fetches ++ alive.current_fetches)
unfolding destroy_stream
Reach-destroy_stream_example =
    Reach-destroy_stream alive later (more (more here seeking) (seek_timed 5000 refl))

abbrev base : Bytes
base = replicate 24 7

abbrev fdk : Bytes
fdk = replicate 32 9

abbrev video : Bytes
video = 1 ∷ 2 ∷ 3 ∷ []

abbrev encrypted : Bytes
encrypted = replicate 32 0 ++ (replicate 16 206 ++ video)

abbrev block : Pipeline
block = record {
  controller = 0;
  captured_generation = 0;
  start_chunk_idx = 0;
  chunks_to_fetch = 1;
  range_start = 32;
  range_end = 50;
}

abbrev idle : WorkerState
idle = record { sodium_ready = false; logs_enabled = false }

run_chunk_pipeline-encrypt_chunks_example :
    run_chunk_pipeline toy idle fdk base 3
      (chunks_of 3)
      (λ check. false)
      (λ index. ok tt)
      (λ index. ok tt)
      block
      (slice encrypted 32 51)
    ≡ (messages_from video 0 1, none)
unfolding chunks_of byte_at encrypt_chunks toy derive_chunk_nonce flatten
run_chunk_pipeline-encrypt_chunks_example =
    run_chunk_pipeline-encrypt_chunks toy toy-IsSound video base fdk refl refl (λ index. ok tt)
      (λ index. ok tt) (λ i. refl) (λ i. refl) idle encrypted 32 4
      ((replicate 16 206 ++ video) ∷ []) block refl refl (omega arith) refl refl

-- A file of one chunk with a box of 10 bytes behind 2 others.
abbrev movie : Bytes
movie = 7 ∷ 7 ∷ 0 ∷ 0 ∷ 0 ∷ 10 ∷ 109 ∷ 111 ∷ 111 ∷ 118 ∷ 5 ∷ 6 ∷ 8 ∷ []

abbrev fast : Bootstrap
fast = record { moov_bytes = none; moov_offset = none; bootstrap_is_last = true; first_chunk = 1 }

moov_found : bootstrap_last_chunk 1 movie movie ≡ ok fast
unfolding bootstrap_last_chunk whole_moov scan_moov get_uint32
moov_found = refl

-- The first of two chunks has no box.
abbrev slow : Bootstrap
slow = record {
  moov_bytes = some (0 ∷ 0 ∷ 0 ∷ 10 ∷ 109 ∷ 111 ∷ 111 ∷ 118 ∷ 5 ∷ 6 ∷ []);
  moov_offset = some 4194306;
  bootstrap_is_last = false;
  first_chunk = 0;
}

moov_last : bootstrap_last_chunk 2 (replicate 20 0) movie ≡ ok slow
unfolding bootstrap_last_chunk whole_moov scan_moov get_uint32
moov_last = refl

abbrev last_part : Bytes → Bytes
last_part file =
    slice file ((chunks_of (length file) - 1) * chunk_size)
      ((chunks_of (length file) - 1) * chunk_size + chunk_size)

bootstrap_last_chunk-moov_example :
    ((fast.first_chunk ≡ 1)
      × (fast.moov_bytes ≡ none)
      × (place : ℕ) × (size : ℕ) × (get_uint32 (slice movie 0 chunk_size) (place + 4) ≡ moov_code)
      × (size ≡ get_uint32 (slice movie 0 chunk_size) place)
      × (place + size ≤ length (slice movie 0 chunk_size)))
    ⊎ ((fast.first_chunk ≡ 0)
        × (place : ℕ) × (size : ℕ) × (fast.moov_offset ≡ some place)
        × (fast.moov_bytes ≡ some (slice movie place (place + size)))
        × (offset : ℕ) × (place ≡ (chunks_of (length movie) - 1) * chunk_size + offset)
        × (get_uint32 (last_part movie) (offset + 4) ≡ moov_code)
        × (size ≡ get_uint32 (last_part movie) offset)
        × (place + size ≤ length movie))
unfolding bootstrap_last_chunk whole_moov scan_moov get_uint32 chunks_of
bootstrap_last_chunk-moov_example = bootstrap_last_chunk-moov movie fast refl

-- The first request fails with 503, the others are answered.
answers : ℕ → Answer
answers ℕ.zero = fetch_error false 503
answers (ℕ.suc number) = blob (1 ∷ 2 ∷ [])

first_fails : (j : ℕ) → j < 1 → answers j ≡ fetch_error false 503
unfolding answers
first_fails ℕ.zero less = refl
first_fails (ℕ.suc j) less = absurd (omega arith)

fetch_range-blob_example :
    fetch_range answers (λ j. false) false
    ≡ record { outcome = ok (1 ∷ 2 ∷ []); requests = 2; waits = 1000 ∷ [] }
unfolding answers
fetch_range-blob_example =
    fetch_range-blob answers (λ j. 503) 1 (1 ∷ 2 ∷ []) (omega arith) first_fails refl
