-- ===== src/Video/Run/Ending.antt =====
-- A player that starves gets the whole video.
use save_box.Prelude.{
  ℕ, zero, suc, ◌+◌, ◌-◌, ◌≤◌, ◌<◌, ◌≡◌, refl, sym, ap, true, false, ◌&&◌, ◌⊎◌, inl, inr, List, [],
  ◌∷◌, length, arith, lt→ltb, leb, Bool, ◌==◌, ==_iff, if_keeps,
}
use mathlib.Core.Path.{subst}
use save_box.Video.{Stream, Pipeline, is_open, is_ended, Track}
use save_box.Video.Buffered.{compute_buffered_ahead}
use save_box.Video.Schedule.{
  schedule_next_chunk, on_timeupdate_tick, released, report_progress, signal_end_of_stream,
  pipeline_done, progress_of,
}
use save_box.Video.Run.{settled, started, chunks_of}
use save_box.Video.Run.Starving.{AllOf, Ready, Busy, first_request, Busy-on_timeupdate_tick}

-- The pipelines settle one after the other, each with success.
unfoldable settle_head : ℕ → List Pipeline → Stream → Stream
settle_head time [] s = s
settle_head time (p ∷ after) s = pipeline_done time p (settled [] after s)

unfoldable pub settle_first : ℕ → Stream → Stream
unfolding settle_head
settle_first time s = settle_head time s.pipelines s

-- Before each of them ends, playback may move and its chunks may be appended.
abbrev buffered : List Track → Stream → Stream
buffered tracks s = record s { source_buffers = tracks }

unfoldable pub settle_all : ℕ → (ℕ → ℕ) → (ℕ → List Track) → Stream → Stream
unfolding settle_first
settle_all zero times tracks s = s
settle_all (suc n) times tracks s =
    settle_all n times tracks (settle_first (times n) (buffered (tracks n) s))

abbrev pub IsOver : Stream → Type 0
IsOver s =
    (s.pipelines ≡ [])
    × (s.next_chunk_index ≡ s.total_chunks)
    × (s.ready_state ≡ is_ended)
    × (s.is_streaming ≡ false)

Ready-released :
    (time n : ℕ) (s : Stream) (p : Pipeline) (after : List Pipeline)
    → s.pipelines ≡ p ∷ after
    → Ready time (suc n) s
    → Ready time n (released p (settled [] after s)) × (s.seek_generation ≡ p.captured_generation)
unfolding released
Ready-released time n s p after split r =
    let counted : s.active_downloads ≡ suc (length after) = rw split at r.counted in
    let bound : suc (length after) + (s.total_chunks - s.next_chunk_index) ≤ suc n =
      rw split at r.bound in
    let (first, later) : AllOf s.seek_generation (p ∷ after) = rw split at r.own in
    (
      record {
        alive = r.alive;
        still = r.still;
        opened = r.opened;
        starving = r.starving;
        counted = omega arith;
        few = omega (arith, r.few);
        within = r.within;
        own = later;
        bound = omega arith;
      },
      first,
    )

on_timeupdate_tick_over :
    (time : ℕ) (s : Stream)
    → leb s.total_chunks s.next_chunk_index ≡ true
    → on_timeupdate_tick time s ≡ s
unfolding on_timeupdate_tick
on_timeupdate_tick_over time s over = ground arith

length_zero : (ps : List Pipeline) → length ps ≡ 0 → ps ≡ []
length_zero [] h = refl
length_zero (p ∷ ps) h = absurd (omega arith)

IsOver-signal_end_of_stream :
    (s : Stream)
    → s.pipelines ≡ []
    → s.next_chunk_index ≡ s.total_chunks
    → s.ready_state ≡ is_open
    → IsOver (signal_end_of_stream s)
unfolding signal_end_of_stream
IsOver-signal_end_of_stream s nothing all opened = (nothing, all, rw opened refl, refl)

more_left :
    (active total next : ℕ)
    → (leb total next && (active == 0)) ≡ false
    → (1 ≤ active) ⊎ (next < total)
more_left active total next h = ground arith

both :
    (active total next : ℕ)
    → (leb total next && (active == 0)) ≡ true
    → (leb total next ≡ true) × (active ≡ 0)
both active total next h = (ground arith, ground arith)

leb→le : (a b : ℕ) → leb a b ≡ true → a ≤ b
leb→le a b h = ground arith

after_report :
    (time n : ℕ) (s : Stream)
    → Ready time n s
    → s.active_downloads < 3
    → IsOver (on_timeupdate_tick time (report_progress s))
      ⊎ Busy time n (on_timeupdate_tick time (report_progress s))
unfolding report_progress signal_end_of_stream
after_report time n s r free =
    if_keeps
      (λ (t : Stream). IsOver (on_timeupdate_tick time t) ⊎ Busy time n (on_timeupdate_tick time t))
      (leb s.total_chunks s.next_chunk_index && (s.active_downloads == 0))
      (λ ends. inl (ending ends))
      (λ goes. inr (
        Busy-on_timeupdate_tick time n _
          (record {
            alive = r.alive;
            still = r.still;
            opened = r.opened;
            starving = r.starving;
            counted = r.counted;
            few = r.few;
            within = r.within;
            own = r.own;
            bound = r.bound;
          })
          free (more_left s.active_downloads s.total_chunks s.next_chunk_index goes)))
  where
    ending :
        (leb s.total_chunks s.next_chunk_index && (s.active_downloads == 0)) ≡ true
        → IsOver (
            on_timeupdate_tick time
              (signal_end_of_stream (record s { buffer_progress = progress_of s })))
    ending ends =
        let (over, idle) = both s.active_downloads s.total_chunks s.next_chunk_index ends in
        let last : Stream = signal_end_of_stream (record s { buffer_progress = progress_of s }) in
        let stays : on_timeupdate_tick time last ≡ last = on_timeupdate_tick_over time last over in
        rw stays (
          IsOver-signal_end_of_stream (record s { buffer_progress = progress_of s })
            (length_zero s.pipelines (omega (arith, r.counted, idle)))
            (omega (arith, r.within, leb→le _ _ over)) r.opened)

after_done :
    (time n : ℕ) (s : Stream) (p : Pipeline) (after : List Pipeline)
    → s.pipelines ≡ p ∷ after
    → Ready time (suc n) s
    → IsOver (pipeline_done time p (settled [] after s))
      ⊎ Busy time n (pipeline_done time p (settled [] after s))
unfolding pipeline_done released
after_done time n s p after split r =
    let (ready, own) = Ready-released time n s p after split r in
    let counted : s.active_downloads ≡ suc (length after) = rw split at r.counted in
    let current : (s.seek_generation == p.captured_generation) ≡ true = (==_iff _ _).1 own in
    if_keeps (λ (t : Stream). IsOver t ⊎ Busy time n t) (s.seek_generation == p.captured_generation)
      (λ _.
        after_report time n (released p (settled [] after s)) ready (omega (arith, r.few, counted)))
      (λ stale. cc (current, stale))

settle_first_none : (time : ℕ) (s : Stream) → s.pipelines ≡ [] → settle_first time s ≡ s
unfolding settle_first
settle_first_none time s h = ap (λ ps. settle_head time ps s) h

settle_first_some :
    (time : ℕ) (s : Stream) (p : Pipeline) (after : List Pipeline)
    → s.pipelines ≡ p ∷ after
    → settle_first time s ≡ pipeline_done time p (settled [] after s)
unfolding settle_first
settle_first_some time s p after h = ap (λ ps. settle_head time ps s) h

Ready-buffered :
    (before after n : ℕ) (tracks : List Track) (s : Stream)
    → compute_buffered_ahead tracks after < 20000
    → Ready before n s
    → Ready after n (buffered tracks s)
Ready-buffered before after n tracks s hungry r = record {
  alive = r.alive;
  still = r.still;
  opened = r.opened;
  starving = lt→ltb _ _ hungry;
  counted = r.counted;
  few = r.few;
  within = r.within;
  own = r.own;
  bound = r.bound;
}

first_of :
    (ps : List Pipeline)
    → 1 ≤ length ps
    → (p : Pipeline) × (after : List Pipeline) × (ps ≡ p ∷ after)
first_of [] h = absurd (omega arith)
first_of (p ∷ after) h = (p, after, refl)

module _ (times : ℕ → ℕ) (tracks : ℕ → List Track) where
  settle_all-IsOver : (n : ℕ) (s : Stream) → IsOver s → IsOver (settle_all n times tracks s)
  unfolding settle_all
  settle_all-IsOver zero s over = over
  settle_all-IsOver (suc n) s over =
      subst (λ t. IsOver (settle_all n times tracks t))
        (sym (settle_first_none (times n) (buffered (tracks n) s) over.0))
        (settle_all-IsOver n (buffered (tracks n) s) over)

  settle_all-Busy :
      ((i : ℕ) → compute_buffered_ahead (tracks i) (times i) < 20000)
      → (n time : ℕ) (s : Stream) → Busy time n s
      → IsOver (settle_all n times tracks s)
  unfolding settle_all
  settle_all-Busy hungry zero time s (r, some_left) = absurd (omega (arith, r.counted, r.bound))
  settle_all-Busy hungry (suc n) time s (r, some_left) =
      let (p, after, split) = first_of s.pipelines (omega (arith, r.counted)) in
      let ready = Ready-buffered time (times n) (suc n) (tracks n) s (hungry n) r in
      subst (λ t. IsOver (settle_all n times tracks t))
        (sym (settle_first_some (times n) (buffered (tracks n) s) p after split))
        (elim (after_done (times n) n (buffered (tracks n) s) p after split ready) [
          | inl over ↦ settle_all-IsOver n _ over
          | inr busy ↦ settle_all-Busy hungry n (times n) _ busy
        ])

-- If a stream starts within its chunks, and its pipelines succeed one after the other, the first of those
-- in flight each time, while playback moves and the tracks grow or shrink in any way that leaves them, when
-- a pipeline ends, less than 20 seconds ahead of the playhead, then after at most as many pipelines as there
-- are chunks left every chunk has been requested, no pipeline is left, and the end of the stream has been
-- signalled.
pub settle_all-started :
    (drive : Bool) (size offset duration first : ℕ) (times : ℕ → ℕ) (tracks : ℕ → List Track)
    → first < chunks_of size
    → ((i : ℕ) → compute_buffered_ahead (tracks i) (times i) < 20000)
    → IsOver (
        settle_all (chunks_of size - first) times tracks (
          schedule_next_chunk
            (started drive size offset duration first (tracks (chunks_of size - first)))))
unfolding started
settle_all-started drive size offset duration first times tracks before hungry =
    let n = chunks_of size - first in
    settle_all-Busy times tracks hungry n (times n) _ (
      first_request (times n) n (started drive size offset duration first (tracks n))
        (record {
          alive = refl;
          still = refl;
          opened = refl;
          starving = lt→ltb _ _ (hungry n);
          counted = refl;
          few = omega arith;
          within = omega arith;
          own = tt;
          bound = omega arith;
        })
        (omega arith) before)
