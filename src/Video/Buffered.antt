-- ===== src/Video/Buffered.antt =====
-- How far the video is buffered: `computeBufferedAhead`, and the test of `onSeek` whether a time is
-- buffered.
pub mod Covers
pub mod Tracks
use save_box.Prelude.{
  ℕ, ◌+◌, ◌-◌, max, Bool, true, false, not, ◌&&◌, List, [], ◌∷◌, ltb, leb, if◌then◌else◌,
}
use save_box.Video.{TimeRange, Track}

-- The gap that the player tolerates, 0.5 seconds.
abbrev pub gap : ℕ
gap = 500

-- The loop over the ranges of one track: the final `contiguousEnd`.
unfoldable pub contiguous_end : ℕ → List TimeRange → ℕ
contiguous_end end [] = end
contiguous_end end (r ∷ ranges) =
    let skipped = contiguous_end end ranges in
    let extended = contiguous_end (max end r.to) ranges in
    if leb r.to end then skipped else if ltb (end + gap) r.from then end else extended

-- The loop over the tracks, with the `maxBufferedAhead` so far; a track without ranges adds 0.
unfoldable pub ahead_from : ℕ → ℕ → List Track → ℕ
unfolding contiguous_end
ahead_from time best [] = best
ahead_from time best (t ∷ tracks) =
    let ahead = contiguous_end time t.buffered - time in
    ahead_from time (if ltb best ahead then ahead else best) tracks

unfoldable pub compute_buffered_ahead : List Track → ℕ → ℕ
unfolding ahead_from
compute_buffered_ahead tracks time = ahead_from time 0 tracks

-- `covered` of `onSeek`.
unfoldable pub is_covered : ℕ → List TimeRange → Bool
is_covered time [] = false
is_covered time (r ∷ ranges) =
    if leb r.from (time + gap) && ltb time r.to then true else is_covered time ranges

abbrev pub all_covered : ℕ → List Track → Bool
unfolding is_covered
all_covered time [] = true
all_covered time (t ∷ tracks) = is_covered time t.buffered && all_covered time tracks

-- `alreadyBuffered`
unfoldable pub already_buffered : ℕ → List Track → Bool
already_buffered time [] = false
already_buffered time (t ∷ tracks) = all_covered time (t ∷ tracks)
