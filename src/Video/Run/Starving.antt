-- ===== src/Video/Run/Starving.antt =====
-- A player that starves requests what is left.
use save_box.Prelude.{
  ℕ, ◌+◌, ◌-◌, ◌≤◌, ◌<◌, ◌≡◌, refl, true, false, ◌&&◌, ◌||◌, ◌⊎◌, inl, inr, List, [], ◌∷◌, ◌++◌,
  length, length-append, arith, ltb, leb, if_keeps,
}
use save_box.Video.{Stream, Pipeline, is_open}
use save_box.Video.Buffered.{compute_buffered_ahead}
use save_box.Video.Schedule.{
  next_pipeline, scheduled, schedule_next_chunk, inject, on_timeupdate_tick,
}
use save_box.Video.Run.Keeps.{schedule_next_chunk-cases, chunks_to_fetch_bounds, inject-keeps}

-- The pipelines settle one after the other, each with success.
abbrev pub AllOf : ℕ → List Pipeline → Type 0
AllOf g [] = Unit
AllOf g (p ∷ ps) = (g ≡ p.captured_generation) × AllOf g ps

AllOf-append :
    (g : ℕ) (ps : List Pipeline) (p : Pipeline)
    → AllOf g ps
    → g ≡ p.captured_generation
    → AllOf g (ps ++ p ∷ [])
AllOf-append g [] p h own = (own, tt)
AllOf-append g (q ∷ ps) p (first, later) own = (first, AllOf-append g ps p later own)

-- A stream that plays, starves and has at most `n` chunks and pipelines ahead.
pub record Ready (time n : ℕ) (s : Stream) : Type 0 where
  pub alive : s.aborted ≡ false
  pub still : s.is_seeking ≡ false
  pub opened : s.ready_state ≡ is_open
  pub starving : ltb (compute_buffered_ahead s.source_buffers time) 20000 ≡ true
  pub counted : s.active_downloads ≡ length s.pipelines
  pub few : s.active_downloads ≤ 3
  pub within : s.next_chunk_index ≤ s.total_chunks
  pub own : AllOf s.seek_generation s.pipelines
  pub bound : length s.pipelines + (s.total_chunks - s.next_chunk_index) ≤ n

Ready-scheduled :
    (time n : ℕ) (s : Stream)
    → s.active_downloads < 3
    → s.next_chunk_index < s.total_chunks
    → Ready time n s
    → Ready time n (scheduled s)
unfolding scheduled next_pipeline
Ready-scheduled time n s free before r =
    let (one, three, inside) = chunks_to_fetch_bounds s before in
    let longer = length-append s.pipelines (next_pipeline s ∷ []) in
    record {
      alive = r.alive;
      still = r.still;
      opened = r.opened;
      starving = r.starving;
      counted = omega (arith, r.counted, longer);
      few = omega arith;
      within = inside;
      own = AllOf-append s.seek_generation s.pipelines (next_pipeline s) r.own refl;
      bound = omega (arith, r.bound, longer, one, inside);
    }

-- It has a pipeline, too.
abbrev pub Busy : ℕ → ℕ → Stream → Type 0
Busy time n s = Ready time n s × (1 ≤ s.active_downloads)

Busy-schedule_next_chunk :
    (time n : ℕ) (s : Stream) → Busy time n s → Busy time n (schedule_next_chunk s)
unfolding scheduled
Busy-schedule_next_chunk time n s (r, some_left) = elim (schedule_next_chunk-cases s) [
  | inl same ↦ rw same (r, some_left)
  | inr (free, _, before, same) ↦ rw same (Ready-scheduled time n s free before r, omega arith)
]

pub first_request :
    (time n : ℕ) (s : Stream)
    → Ready time n s
    → s.active_downloads < 3
    → s.next_chunk_index < s.total_chunks
    → Busy time n (schedule_next_chunk s)
unfolding schedule_next_chunk
first_request time n s r free before =
    if_keeps (Busy time n)
      (leb 3 s.active_downloads || (s.aborted || leb s.total_chunks s.next_chunk_index))
      (λ stays. absurd (refused s r.alive free before stays))
      (λ _. requested s (Ready-scheduled time n s free before r))
  where
    refused :
        (t : Stream)
        → t.aborted ≡ false
        → t.active_downloads < 3
        → t.next_chunk_index < t.total_chunks
        → (leb 3 t.active_downloads || (t.aborted || leb t.total_chunks t.next_chunk_index)) ≡ true
        → ⊥
    refused t alive free' before' stays = ground arith

    requested : (t : Stream) → Ready time n (scheduled t) → Busy time n (scheduled t)
    requested t r' = (r', omega arith)

Busy-inject :
    (time n : ℕ) (s : Stream)
    → Ready time n s
    → s.active_downloads < 3
    → s.next_chunk_index < s.total_chunks
    → Busy time n (inject 3 time s)
unfolding inject
Busy-inject time n s r free before =
    if_keeps (Busy time n)
      (ltb (compute_buffered_ahead s.source_buffers time) 20000 && ltb s.active_downloads 3)
      (λ _.
        if_keeps (Busy time n) (leb s.total_chunks s.next_chunk_index || s.aborted)
          (λ stops. absurd (over s r.alive before stops))
          (λ _.
            inject-keeps (Busy time n) (Busy-schedule_next_chunk time n) 2 time
              (schedule_next_chunk s) (first_request time n s r free before)))
      (λ full. absurd (sated s r.starving free full))
  where
    over :
        (t : Stream)
        → t.aborted ≡ false
        → t.next_chunk_index < t.total_chunks
        → (leb t.total_chunks t.next_chunk_index || t.aborted) ≡ true
        → ⊥
    over t alive before' stops = ground arith

    sated :
        (t : Stream)
        → ltb (compute_buffered_ahead t.source_buffers time) 20000 ≡ true
        → t.active_downloads < 3
        → (ltb (compute_buffered_ahead t.source_buffers time) 20000 && ltb t.active_downloads 3)
          ≡ false
        → ⊥
    sated t hungry free' full = ground arith

pub Busy-on_timeupdate_tick :
    (time n : ℕ) (s : Stream)
    → Ready time n s
    → s.active_downloads < 3
    → (1 ≤ s.active_downloads) ⊎ (s.next_chunk_index < s.total_chunks)
    → Busy time n (on_timeupdate_tick time s)
unfolding on_timeupdate_tick
Busy-on_timeupdate_tick time n s r free more_left =
    if_keeps (Busy time n)
      ((s.aborted || s.is_seeking)
        || (leb 3 s.active_downloads || leb s.total_chunks s.next_chunk_index))
      (λ stays. (r, some_left s r.alive r.still free more_left stays))
      (λ goes.
        let (ready, some_left') = Busy-inject time n s r free (before s goes) in
        if_keeps (Busy time n) (ltb 10000 time)
          (λ _. (
            record {
              alive = ready.alive;
              still = ready.still;
              opened = ready.opened;
              starving = ready.starving;
              counted = ready.counted;
              few = ready.few;
              within = ready.within;
              own = ready.own;
              bound = ready.bound;
            },
            some_left',
          ))
          (λ _. (ready, some_left')))
  where
    some_left :
        (t : Stream)
        → t.aborted ≡ false
        → t.is_seeking ≡ false
        → t.active_downloads < 3
        → (1 ≤ t.active_downloads) ⊎ (t.next_chunk_index < t.total_chunks)
        → ((t.aborted || t.is_seeking)
            || (leb 3 t.active_downloads || leb t.total_chunks t.next_chunk_index))
          ≡ true
        → 1 ≤ t.active_downloads
    some_left t alive still free' more_left' stays = ground arith

    before :
        (t : Stream)
        → ((t.aborted || t.is_seeking)
            || (leb 3 t.active_downloads || leb t.total_chunks t.next_chunk_index))
          ≡ false
        → t.next_chunk_index < t.total_chunks
    before t goes = ground arith
