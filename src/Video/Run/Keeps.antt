-- ===== src/Video/Run/Keeps.antt =====
-- What a tick keeps, if every request keeps it.
use save_box.Prelude.{
  ℕ, zero, suc, ◌+◌, ◌≤◌, ◌<◌, ◌≡◌, false, ◌&&◌, ◌||◌, ◌⊎◌, inl, inr, List, [], ◌∷◌, ◌++◌, arith,
  ltb, leb, Bool-cases, if_keeps,
}
use save_box.Video.{Stream}
use save_box.Video.Buffered.{compute_buffered_ahead}
use save_box.Video.Schedule.{
  next_pipeline, scheduled, schedule_next_chunk, inject, on_timeupdate_tick, buffer_ahead,
}

pub schedule_next_chunk-cases :
    (s : Stream)
    → (schedule_next_chunk s ≡ s)
      ⊎ ((s.active_downloads < 3)
          × (s.aborted ≡ false)
          × (s.next_chunk_index < s.total_chunks)
          × (schedule_next_chunk s ≡ scheduled s))
unfolding schedule_next_chunk
schedule_next_chunk-cases s = ground arith

pub chunks_to_fetch_bounds :
    (s : Stream)
    → s.next_chunk_index < s.total_chunks
    → (1 ≤ (next_pipeline s).chunks_to_fetch)
      × ((next_pipeline s).chunks_to_fetch ≤ 3)
      × (s.next_chunk_index + (next_pipeline s).chunks_to_fetch ≤ s.total_chunks)
unfolding next_pipeline
chunks_to_fetch_bounds s h = elim (Bool-cases s.is_google_drive) [
  | inl drive ↦ rw drive (omega arith, omega arith, omega arith)
  | inr own ↦ rw own (omega arith, omega arith, omega arith)
]

module _ (P : Stream → Type 0) (by_request : (s : Stream) → P s → P (schedule_next_chunk s)) where
  pub inject-keeps : (fuel time : ℕ) (s : Stream) → P s → P (inject fuel time s)
  unfolding inject
  inject-keeps zero time s h = h
  inject-keeps (suc fuel) time s h =
      if_keeps P
        (ltb (compute_buffered_ahead s.source_buffers time) buffer_ahead
          && ltb s.active_downloads 3)
        (λ _.
          if_keeps P (leb s.total_chunks s.next_chunk_index || s.aborted) (λ _. h)
            (λ _. inject-keeps fuel time (schedule_next_chunk s) (by_request s h)))
        (λ _. h)

  pub on_timeupdate_tick-keeps :
      ((s : Stream) (times : List ℕ) → P s → P (record s { evictions = times }))
      → (time : ℕ) (s : Stream) → P s
      → P (on_timeupdate_tick time s)
  unfolding on_timeupdate_tick
  on_timeupdate_tick-keeps by_eviction time s h =
      let injected = inject-keeps 3 time s h in
      if_keeps P
        ((s.aborted || s.is_seeking)
          || (leb 3 s.active_downloads || leb s.total_chunks s.next_chunk_index))
        (λ _. h)
        (λ _.
          if_keeps P (ltb 10000 time)
            (λ _. by_eviction (inject 3 time s) ((inject 3 time s).evictions ++ time ∷ []) injected)
            (λ _. injected))
