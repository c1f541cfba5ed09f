-- ===== src/Video/Run/Counters.antt =====
-- The counters of a stream agree with its pipelines, whatever the order of events.
use save_box.Prelude.{
  ℕ, ◌≤◌, ◌<◌, ◌≡◌, refl, sym, ◌∙◌, Bool, true, false, not, ◌&&◌, ◌||◌, inl, inr, List, ◌∷◌, ◌++◌,
  arith, count, leb, ◌==◌, if_keeps,
}
use save_box.Video.{
  Stream, Pipeline, PipelineError, fetch_aborted, append_failed, other_error, Seek, TimeRange,
  Track,
}
use save_box.Video.Buffered.{already_buffered}
use save_box.Video.Seeking.{on_seek, resume, evict_stale_ranges, clear_tracks, seek_timer, accepts}
use save_box.Video.Run.{
  Play, Step, Reach, settled, started, chunks_of, primed, ticked, done, failed, evicted, buffered,
  seeked, waiting, playing, destroyed, played, seeking, seek_timed, cleared, resumed, here, more,
}
use save_box.Video.Run.Keeps.{
  schedule_next_chunk-cases, chunks_to_fetch_bounds, on_timeupdate_tick-keeps,
}
use save_box.Video.Schedule.{
  next_pipeline, scheduled, schedule_next_chunk, on_timeupdate_tick, pipeline_done, pipeline_failed,
  released, report_progress, report_error, signal_end_of_stream, destroy_stream,
}
use save_box.Video.Run.Generations.{
  is_of, AllUpTo, AllUpTo-append, AllUpTo-without, count-is_of_next, AllUpTo-next, count-is_of_last,
  count-is_of_own, count-is_of_other,
}

pub record Inv (s : Stream) : Type 0 where
  pub active : s.active_downloads ≡ count (is_of s.seek_generation) s.pipelines
  pub few : s.active_downloads ≤ 3
  pub within : s.next_chunk_index ≤ s.total_chunks
  pub old : AllUpTo s.seek_generation s.pipelines

captured_generation-next_pipeline :
    (s : Stream) → (next_pipeline s).captured_generation ≡ s.seek_generation
unfolding next_pipeline
captured_generation-next_pipeline s = refl

Inv-scheduled :
    (s : Stream)
    → s.active_downloads < 3
    → s.next_chunk_index < s.total_chunks
    → Inv s
    → Inv (scheduled s)
unfolding scheduled next_pipeline
Inv-scheduled s free before i =
    let own = captured_generation-next_pipeline s in
    let (_, _, bounded) = chunks_to_fetch_bounds s before in
    record {
      active = omega (arith, i.active, count-is_of_last s.seek_generation s.pipelines _ own);
      few = omega arith;
      within = bounded;
      old = AllUpTo-append s.seek_generation s.pipelines _ i.old (omega (arith, own), tt);
    }

Inv-schedule_next_chunk : (s : Stream) → Inv s → Inv (schedule_next_chunk s)
Inv-schedule_next_chunk s i = elim (schedule_next_chunk-cases s) [
  | inl same ↦ rw same i
  | inr (free, _, before, same) ↦ rw same (Inv-scheduled s free before i)
]

Inv-on_timeupdate_tick : (time : ℕ) (s : Stream) → Inv s → Inv (on_timeupdate_tick time s)
Inv-on_timeupdate_tick time s i =
    on_timeupdate_tick-keeps Inv Inv-schedule_next_chunk
      (λ t times j. record { active = j.active; few = j.few; within = j.within; old = j.old }) time
      s i

Inv-report_progress : (s : Stream) → Inv s → Inv (report_progress s)
unfolding report_progress signal_end_of_stream
Inv-report_progress s i =
    if_keeps Inv (leb s.total_chunks s.next_chunk_index && (s.active_downloads == 0))
      (λ _. record { active = i.active; few = i.few; within = i.within; old = i.old })
      (λ _. record { active = i.active; few = i.few; within = i.within; old = i.old })

-- A pipeline of this generation that is settled, and one of an earlier generation.
Inv-released :
    (s : Stream) (before after : List Pipeline) (p : Pipeline)
    → s.pipelines ≡ before ++ p ∷ after
    → is_of s.seek_generation p ≡ true
    → Inv s
    → Inv (released p (settled before after s))
unfolding released
Inv-released s before after p split own i =
    let listed : s.active_downloads ≡ count (is_of s.seek_generation) (before ++ p ∷ after) =
      rw split at i.active in
    let counted = count-is_of_own s.seek_generation before after p own in
    record {
      active = omega (arith, listed, counted);
      few = omega (arith, i.few);
      within = i.within;
      old = AllUpTo-without s.seek_generation before after p (rw split at i.old);
    }

Inv-settled :
    (s : Stream) (before after : List Pipeline) (p : Pipeline)
    → s.pipelines ≡ before ++ p ∷ after
    → is_of s.seek_generation p ≡ false
    → Inv s
    → Inv (settled before after s)
Inv-settled s before after p split other i =
    let listed : s.active_downloads ≡ count (is_of s.seek_generation) (before ++ p ∷ after) =
      rw split at i.active in
    record {
      active = listed ∙ count-is_of_other s.seek_generation before after p other;
      few = i.few;
      within = i.within;
      old = AllUpTo-without s.seek_generation before after p (rw split at i.old);
    }

Inv-pipeline_done :
    (s : Stream) (time : ℕ) (before after : List Pipeline) (p : Pipeline)
    → s.pipelines ≡ before ++ p ∷ after
    → Inv s
    → Inv (pipeline_done time p (settled before after s))
unfolding pipeline_done
Inv-pipeline_done s time before after p split i =
    if_keeps Inv (is_of s.seek_generation p)
      (λ own.
        Inv-on_timeupdate_tick time _
          (Inv-report_progress _ (Inv-released s before after p split own i)))
      (λ other. Inv-settled s before after p split other i)

Inv-destroy_stream : (s : Stream) → Inv s → Inv (destroy_stream s)
unfolding destroy_stream
Inv-destroy_stream s i = record { active = i.active; few = i.few; within = i.within; old = i.old }

Inv-report_error : (time : ℕ) (e : PipelineError) (s : Stream) → Inv s → Inv (report_error time e s)
unfolding report_error destroy_stream
Inv-report_error time fetch_aborted s i = i
Inv-report_error time append_failed s i = record {
  active = i.active;
  few = i.few;
  within = i.within;
  old = i.old;
}
Inv-report_error time (other_error code) s i = record {
  active = i.active;
  few = i.few;
  within = i.within;
  old = i.old;
}

Inv-pipeline_failed :
    (s : Stream) (time : ℕ) (e : PipelineError) (before after : List Pipeline) (p : Pipeline)
    → s.pipelines ≡ before ++ p ∷ after
    → Inv s
    → Inv (pipeline_failed time e p (settled before after s))
unfolding pipeline_failed
Inv-pipeline_failed s time e before after p split i =
    if_keeps Inv (is_of s.seek_generation p)
      (λ own.
        let freed = Inv-released s before after p split own i in
        if_keeps Inv s.aborted (λ _. freed) (λ _. Inv-report_error time e _ freed))
      (λ other. Inv-settled s before after p split other i)

Inv-on_seek : (time : ℕ) (s : Stream) → Inv s → Inv (on_seek time s)
unfolding on_seek
Inv-on_seek time s i =
    if_keeps Inv s.aborted (λ _. i)
      (λ _.
        if_keeps Inv (already_buffered time s.source_buffers)
          (λ _.
            Inv-on_timeupdate_tick time _
              (record { active = i.active; few = i.few; within = i.within; old = i.old }))
          (λ _. record {
            active = sym (count-is_of_next s.seek_generation s.pipelines i.old);
            few = omega arith;
            within = i.within;
            old = AllUpTo-next s.seek_generation s.pipelines i.old;
          }))

Inv-resume : (q : Seek) (chunk : ℕ) (s : Stream) → Inv s → Inv (resume q chunk s)
unfolding resume
Inv-resume q chunk s i =
    if_keeps Inv (s.aborted || not (s.seek_generation == q.wanted_generation)) (λ _. i)
      (λ _.
        Inv-schedule_next_chunk _
          (record { active = i.active; few = i.few; within = omega arith; old = i.old }))

Inv-evict_stale_ranges :
    (remove : ℕ → ℕ → List TimeRange → List TimeRange) (is_removing : Bool) (time : ℕ) (s : Stream)
    → Inv s
    → Inv (evict_stale_ranges remove is_removing time s)
unfolding evict_stale_ranges
Inv-evict_stale_ranges remove is_removing time s i =
    if_keeps Inv (is_removing || (not (accepts s.ready_state) || leb time 10000)) (λ _. i)
      (λ _. record { active = i.active; few = i.few; within = i.within; old = i.old })

Inv-Play : {s t : Stream} → Play s t → Inv s → Inv t
Inv-Play {s} (primed) i = Inv-schedule_next_chunk s i
Inv-Play {s} (ticked time) i = Inv-on_timeupdate_tick time s i
Inv-Play {s} (done time before after p split) i = Inv-pipeline_done s time before after p split i
Inv-Play {s} (failed time e before after p split) i =
    Inv-pipeline_failed s time e before after p split i
Inv-Play {s} (evicted remove is_removing before after time split) i =
    Inv-evict_stale_ranges remove is_removing time _
      (record { active = i.active; few = i.few; within = i.within; old = i.old })
Inv-Play (buffered tracks) i = record {
  active = i.active;
  few = i.few;
  within = i.within;
  old = i.old;
}
Inv-Play seeked i = record { active = i.active; few = i.few; within = i.within; old = i.old }
Inv-Play waiting i = record { active = i.active; few = i.few; within = i.within; old = i.old }
Inv-Play playing i = record { active = i.active; few = i.few; within = i.within; old = i.old }
Inv-Play {s} destroyed i = Inv-destroy_stream s i

Inv-clear_tracks :
    (remove : ℕ → ℕ → List TimeRange → List TimeRange) (duration : ℕ) (q : Seek) (s : Stream)
    → Inv s
    → Inv (clear_tracks remove duration q s)
unfolding clear_tracks
Inv-clear_tracks remove duration q s i =
    if_keeps Inv (s.aborted || not (s.seek_generation == q.wanted_generation)) (λ _. i)
      (λ _. record { active = i.active; few = i.few; within = i.within; old = i.old })

Inv-Step : {s t : Stream} → Step s t → Inv s → Inv t
unfolding seek_timer
Inv-Step (played step) i = Inv-Play step i
Inv-Step seeking i = record { active = i.active; few = i.few; within = i.within; old = i.old }
Inv-Step {s} (seek_timed time due) i =
    Inv-on_seek time (record s { seek_debounced = false })
      (record { active = i.active; few = i.few; within = i.within; old = i.old })
Inv-Step {s} (cleared remove duration q) i = Inv-clear_tracks remove duration q s i
Inv-Step {s} (resumed before after q chunk split) i =
    Inv-resume q chunk _ (record { active = i.active; few = i.few; within = i.within; old = i.old })

Inv-Reach : {s t : Stream} → Reach s t → Inv s → Inv t
Inv-Reach here i = i
Inv-Reach (more steps step) i = Inv-Step step (Inv-Reach steps i)

-- For a stream that starts within its chunks, in whatever order its events come and however often it
-- seeks: the number of its active downloads is the number of its unsettled pipelines of the current
-- generation and at most 3, the next chunk is at most the number of chunks, and no pipeline is of a
-- generation to come.
pub started-Inv :
    (drive : Bool) (size offset duration first : ℕ) (tracks : List Track) (t : Stream)
    → first ≤ chunks_of size
    → Reach (started drive size offset duration first tracks) t
    → Inv t
unfolding started
started-Inv drive size offset duration first tracks t within steps =
    Inv-Reach steps (record { active = refl; few = omega arith; within = within; old = tt })
