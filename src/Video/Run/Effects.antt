-- ===== src/Video/Run/Effects.antt =====
-- What a step does besides requests: it leaves the pipelines begun, the next chunk and the file as they are.
use save_box.Prelude.{
  ℕ, ◌≡◌, refl, Bool, true, not, ◌&&◌, ◌||◌, List, [], ◌++◌, append-nil, leb, ◌==◌, if_keeps,
}
use save_box.Video.{
  Stream, Pipeline, PipelineError, fetch_aborted, append_failed, other_error, TimeRange,
}
use save_box.Video.Schedule.{
  schedule_next_chunk, on_timeupdate_tick, released, report_progress, signal_end_of_stream,
  pipeline_done, destroy_stream, report_error, pipeline_failed,
}
use save_box.Video.Seeking.{evict_stale_ranges, accepts}
use save_box.Video.Run.{
  Play, Plays, begin, next, settled, primed, ticked, done, failed, evicted, buffered, seeked,
  waiting, playing, destroyed,
}
use save_box.Video.Run.Keeps.{on_timeupdate_tick-keeps}

-- No fetch is in flight, and none has been cut off.
abbrev pub Settled : Stream → Stream → Type 0
Settled s t = (t.current_fetches ≡ []) × (t.aborted_fetches ≡ s.aborted_fetches)

abbrev pub Calm : Stream → Stream → Type 0
Calm s t =
    (t.is_google_drive ≡ s.is_google_drive)
    × (t.plaintext_size ≡ s.plaintext_size)
    × (t.total_chunks ≡ s.total_chunks)
    × (t.data_offset ≡ s.data_offset)
    × (t.next_chunk_index ≡ s.next_chunk_index)
    × (t.requested ≡ s.requested)
    × (s.aborted ≡ true → t.aborted ≡ true)
    × (s.current_fetches ≡ [] → Settled s t)

-- Quiet changes and requests, in some order.
pub data Effect (s : Stream) : Stream → Type 0 where
  nothing : Effect s s
  quiet : {t u : Stream} → Effect s t → Calm t u → Effect s u
  sent : {t : Stream} → Effect s t → Effect s (schedule_next_chunk t)

Effect-on_timeupdate_tick :
    (time : ℕ) (s t : Stream) → Effect s t → Effect s (on_timeupdate_tick time t)
Effect-on_timeupdate_tick time s t e =
    on_timeupdate_tick-keeps (Effect s) (λ u h. sent h)
      (λ u times h. quiet h (refl, refl, refl, refl, refl, refl, λ h'. h', λ h'. (h', refl))) time t
      e

Calm-report_progress : (s : Stream) → Calm s (report_progress s)
unfolding report_progress signal_end_of_stream
Calm-report_progress s =
    if_keeps (Calm s) (leb s.total_chunks s.next_chunk_index && (s.active_downloads == 0))
      (λ _. (refl, refl, refl, refl, refl, refl, λ h. h, λ h. (h, refl)))
      (λ _. (refl, refl, refl, refl, refl, refl, λ h. h, λ h. (h, refl)))

Calm-released :
    (s : Stream) (before after : List Pipeline) (p : Pipeline)
    → Calm s (released p (settled before after s))
unfolding released
Calm-released s before after p =
    (refl, refl, refl, refl, refl, refl, λ h. h, λ h. (rw h refl, refl))

Calm-report_error : (time : ℕ) (e : PipelineError) (s : Stream) → Calm s (report_error time e s)
unfolding report_error destroy_stream
Calm-report_error time fetch_aborted s =
    (refl, refl, refl, refl, refl, refl, λ h. h, λ h. (h, refl))
Calm-report_error time append_failed s =
    (refl, refl, refl, refl, refl, refl, λ h. refl, λ h. (refl, rw h (append-nil _)))
Calm-report_error time (other_error code) s =
    (refl, refl, refl, refl, refl, refl, λ h. h, λ h. (h, refl))

Calm-destroy_stream : (s : Stream) → Calm s (destroy_stream s)
unfolding destroy_stream
Calm-destroy_stream s =
    (refl, refl, refl, refl, refl, refl, λ h. refl, λ h. (refl, rw h (append-nil _)))

Calm-evict_stale_ranges :
    (remove : ℕ → ℕ → List TimeRange → List TimeRange) (is_removing : Bool) (time : ℕ) (s : Stream)
    → Calm s (evict_stale_ranges remove is_removing time s)
unfolding evict_stale_ranges
Calm-evict_stale_ranges remove is_removing time s =
    if_keeps (Calm s) (is_removing || (not (accepts s.ready_state) || leb time 10000))
      (λ _. (refl, refl, refl, refl, refl, refl, λ h. h, λ h. (h, refl)))
      (λ _. (refl, refl, refl, refl, refl, refl, λ h. h, λ h. (h, refl)))

Effect-pipeline_done :
    (s : Stream) (time : ℕ) (before after : List Pipeline) (p : Pipeline)
    → Effect s (pipeline_done time p (settled before after s))
unfolding pipeline_done
Effect-pipeline_done s time before after p =
    let free : Effect s (released p (settled before after s)) =
      quiet nothing (Calm-released s before after p) in
    if_keeps (Effect s) (s.seek_generation == p.captured_generation)
      (λ _.
        Effect-on_timeupdate_tick time s _
          (quiet free (Calm-report_progress (released p (settled before after s)))))
      (λ _. quiet nothing (refl, refl, refl, refl, refl, refl, λ h. h, λ h. (h, refl)))

Effect-pipeline_failed :
    (s : Stream) (time : ℕ) (e : PipelineError) (before after : List Pipeline) (p : Pipeline)
    → Effect s (pipeline_failed time e p (settled before after s))
unfolding pipeline_failed
Effect-pipeline_failed s time e before after p =
    let free : Effect s (released p (settled before after s)) =
      quiet nothing (Calm-released s before after p) in
    if_keeps (Effect s) (s.seek_generation == p.captured_generation)
      (λ _.
        if_keeps (Effect s) s.aborted (λ _. free)
          (λ _. quiet free (Calm-report_error time e (released p (settled before after s)))))
      (λ _. quiet nothing (refl, refl, refl, refl, refl, refl, λ h. h, λ h. (h, refl)))

Effect-Play : {s t : Stream} → Play s t → Effect s t
Effect-Play primed = sent nothing
Effect-Play {s} (ticked time) = Effect-on_timeupdate_tick time s s nothing
Effect-Play {s} (done time before after p split) = Effect-pipeline_done s time before after p
Effect-Play {s} (failed time e before after p split) =
    Effect-pipeline_failed s time e before after p
Effect-Play {s} (evicted remove is_removing before after time split) =
    let listed : Effect s (record s { evictions = before ++ after }) =
      quiet nothing (refl, refl, refl, refl, refl, refl, λ h. h, λ h. (h, refl)) in
    quiet listed (Calm-evict_stale_ranges remove is_removing time _)
Effect-Play (buffered tracks) =
    quiet nothing (refl, refl, refl, refl, refl, refl, λ h. h, λ h. (h, refl))
Effect-Play seeked = quiet nothing (refl, refl, refl, refl, refl, refl, λ h. h, λ h. (h, refl))
Effect-Play waiting = quiet nothing (refl, refl, refl, refl, refl, refl, λ h. h, λ h. (h, refl))
Effect-Play playing = quiet nothing (refl, refl, refl, refl, refl, refl, λ h. h, λ h. (h, refl))
Effect-Play {s} destroyed = quiet nothing (Calm-destroy_stream s)

-- What requests and quiet changes keep, every step without a seek keeps.
module _ (P : Stream → Type 0) (by_request : (s : Stream) → P s → P (schedule_next_chunk s))
    (by_calm : (s t : Stream) → Calm s t → P s → P t) where
  Effect-keeps : {s t : Stream} → Effect s t → P s → P t
  Effect-keeps nothing h = h
  Effect-keeps (quiet e calm) h = by_calm _ _ calm (Effect-keeps e h)
  Effect-keeps (sent e) h = by_request _ (Effect-keeps e h)

  pub Play-keeps : {s t : Stream} → Play s t → P s → P t
  Play-keeps step h = Effect-keeps (Effect-Play step) h

  pub Plays-keeps : {s t : Stream} → Plays s t → P s → P t
  Plays-keeps begin h = h
  Plays-keeps (next steps step) h = Play-keeps step (Plays-keeps steps h)
