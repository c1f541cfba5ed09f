-- ===== src/Video/Run/Silence.antt =====
-- A stream that has been destroyed.
use save_box.Prelude.{ℕ, ◌≡◌, ◌∙◌, refl, true, not, ◌||◌, inl, inr, List, [], ◌++◌, ◌==◌, if_keeps}
use save_box.Video.{Stream, Pipeline}
use save_box.Video.Seeking.{on_seek, resume, clear_tracks, seek_timer}
use save_box.Video.Schedule.{schedule_next_chunk, destroy_stream}
use save_box.Video.Run.{
  Step, Reach, played, seeking, seek_timed, cleared, resumed, here, more, Play,
}
use save_box.Video.Run.Keeps.{schedule_next_chunk-cases}
use save_box.Video.Run.Effects.{Play-keeps}

abbrev IsSilent : List Pipeline → List ℕ → Stream → Type 0
IsSilent log cut s =
    (s.aborted ≡ true) × (s.requested ≡ log) × (s.current_fetches ≡ []) × (s.aborted_fetches ≡ cut)

module _ (log : List Pipeline) (cut : List ℕ) where
  IsSilent-schedule_next_chunk :
      (s : Stream) → IsSilent log cut s → IsSilent log cut (schedule_next_chunk s)
  IsSilent-schedule_next_chunk s (gone, same, idle, ended) = elim (schedule_next_chunk-cases s) [
    | inl stays ↦ rw stays (gone, same, idle, ended)
    | inr (_, alive, _, _) ↦ cc (gone, alive)
  ]

  IsSilent-Play : {s t : Stream} → Play s t → IsSilent log cut s → IsSilent log cut t
  IsSilent-Play =
      Play-keeps (IsSilent log cut) IsSilent-schedule_next_chunk
        (λ u v (_, _, _, _, _, kept, stays, settles) (gone, same, idle, ended).
          (stays gone, kept ∙ same, (settles idle).0, (settles idle).1 ∙ ended))

  IsSilent-Step : {s t : Stream} → Step s t → IsSilent log cut s → IsSilent log cut t
  unfolding seek_timer on_seek resume clear_tracks
  IsSilent-Step (played step) h = IsSilent-Play step h
  IsSilent-Step seeking h = h
  IsSilent-Step {s} (seek_timed time due) (gone, same, idle, ended) =
      if_keeps (IsSilent log cut) s.aborted (λ _. (gone, same, idle, ended))
        (λ alive. cc (gone, alive))
  IsSilent-Step {s} (cleared remove duration q) (gone, same, idle, ended) =
      if_keeps (IsSilent log cut) (s.aborted || not (s.seek_generation == q.wanted_generation))
        (λ _. (gone, same, idle, ended)) (λ _. (gone, same, idle, ended))
  IsSilent-Step {s} (resumed before after q chunk split) (gone, same, idle, ended) =
      if_keeps (IsSilent log cut) (s.aborted || not (s.seek_generation == q.wanted_generation))
        (λ _. (gone, same, idle, ended))
        (λ alive. IsSilent-schedule_next_chunk _ (gone, same, idle, ended))

  IsSilent-Reach : {s t : Stream} → Reach s t → IsSilent log cut s → IsSilent log cut t
  IsSilent-Reach here h = h
  IsSilent-Reach (more steps step) h = IsSilent-Step step (IsSilent-Reach steps h)

-- When a stream is destroyed, the fetches in `currentFetches` are aborted, all of them, and from then on no
-- pipeline begins, `currentFetches` stays empty and no further fetch is aborted, whatever settles later and
-- whatever seek is still under way.
pub Reach-destroy_stream :
    (s t : Stream)
    → Reach (destroy_stream s) t
    → (t.requested ≡ s.requested)
      × (t.current_fetches ≡ [])
      × (t.aborted_fetches ≡ s.aborted_fetches ++ s.current_fetches)
unfolding destroy_stream
Reach-destroy_stream s t steps =
    let (_, same, idle, ended) =
      IsSilent-Reach s.requested (s.aborted_fetches ++ s.current_fetches) steps
        (refl, refl, refl, refl) in
    (same, idle, ended)
