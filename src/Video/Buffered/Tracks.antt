-- ===== src/Video/Buffered/Tracks.antt =====
-- `computeBufferedAhead` and the test of `onSeek`, over all the tracks of a video.
use save_box.Prelude.{
  ℕ, ◌+◌, ◌-◌, ◌≤◌, ◌<◌, ◌≡◌, refl, true, false, ◌⊎◌, inl, inr, List, [], ◌∷◌, In, arith, ltb,
  ltb→le, Bool-cases,
}
use save_box.Video.{Track}
use save_box.Video.Buffered.{
  contiguous_end, is_covered, ahead_from, compute_buffered_ahead, already_buffered, all_covered,
}
use save_box.Video.Buffered.Covers.{StartsFrom, contiguous_end-le, contiguous_end-covers}

-- The ranges of each track come in the order of their starts.
abbrev pub AreSorted : List Track → Type 0
AreSorted [] = Unit
AreSorted (t ∷ tracks) = StartsFrom 0 t.buffered × AreSorted tracks

AreSorted-In :
    (t : Track) (tracks : List Track) → AreSorted tracks → In t tracks → StartsFrom 0 t.buffered
AreSorted-In t [] sorted inside = absurd inside
AreSorted-In t (s ∷ tracks) (first, later) (inl here) = rw here first
AreSorted-In t (s ∷ tracks) (first, later) (inr there) = AreSorted-In t tracks later there

-- A track that the maximum comes from, unless it is the one that the loop began with.
ahead_from-In :
    (time best : ℕ) (tracks : List Track)
    → (ahead_from time best tracks ≡ best)
      ⊎ ((t : Track) × In t tracks
          × (ahead_from time best tracks ≡ contiguous_end time t.buffered - time))
unfolding ahead_from
ahead_from-In time best [] = inl refl
ahead_from-In time best (t ∷ tracks) =
    let ahead = contiguous_end time t.buffered - time in
    elim (Bool-cases (ltb best ahead)) [
      | inl longer ↦ elim (ahead_from-In time ahead tracks) [
        | inl same ↦ inr (t, inl refl, rw longer same)
        | inr (s, inside, same) ↦ inr (s, inr inside, rw longer same)
      ]
      | inr shorter ↦ elim (ahead_from-In time best tracks) [
        | inl same ↦ inl (rw shorter same)
        | inr (s, inside, same) ↦ inr (s, inr inside, rw shorter same)
      ]
    ]

ahead_from-le :
    (time best : ℕ) (tracks : List Track)
    → (best ≤ ahead_from time best tracks)
      × ((t : Track)
          → In t tracks
          → contiguous_end time t.buffered - time ≤ ahead_from time best tracks)
unfolding ahead_from
ahead_from-le time best [] = (omega arith, λ t inside. absurd inside)
ahead_from-le time best (s ∷ tracks) =
    let ahead = contiguous_end time s.buffered - time in
    elim (Bool-cases (ltb best ahead)) [
      | inl longer ↦
          let (longest, others) = ahead_from-le time ahead tracks in
          rw longer (
            omega (arith, lt_of best ahead longer, longest),
            λ t inside. elim inside [ inl here ↦ rw here longest | inr there ↦ others t there ],
          )
      | inr shorter ↦
          let (longest, others) = ahead_from-le time best tracks in
          rw shorter (
            longest,
            λ t inside. elim inside [
              | inl here ↦ rw here (omega (arith, ltb→le best ahead shorter, longest))
              | inr there ↦ others t there
            ],
          )
    ]
  where
    lt_of : (a b : ℕ) → ltb a b ≡ true → a < b
    lt_of a b h = ground arith

is_covered_head :
    (time : ℕ) (t : Track) (tracks : List Track)
    → is_covered time t.buffered ≡ false
    → already_buffered time (t ∷ tracks) ≡ false
unfolding already_buffered all_covered
is_covered_head time t tracks h = rw h refl

-- For tracks whose ranges come in the order of their starts: unless `computeBufferedAhead` counts nothing, and
-- then `onSeek` does not take the playhead for buffered either, there is a track that passes the test of
-- `onSeek` at every time from the playhead up to where `computeBufferedAhead` stops, and not at that time; and
-- no track is buffered further than that without a gap.
pub compute_buffered_ahead-already_buffered :
    (time : ℕ) (tracks : List Track)
    → AreSorted tracks
    → (((compute_buffered_ahead tracks time ≡ 0) × (already_buffered time tracks ≡ false))
        ⊎ ((t : Track) × In t tracks
            × ((u : ℕ)
                → time ≤ u
                → u < time + compute_buffered_ahead tracks time
                → is_covered u t.buffered ≡ true)
            × (is_covered (time + compute_buffered_ahead tracks time) t.buffered ≡ false)))
      × ((t : Track)
          → In t tracks
          → contiguous_end time t.buffered ≤ time + compute_buffered_ahead tracks time)
unfolding compute_buffered_ahead already_buffered
compute_buffered_ahead-already_buffered time tracks sorted =
    let (_, all) = ahead_from-le time 0 tracks in
    (
      elim (ahead_from-In time 0 tracks) [
        | inl nothing ↦ inl (nothing, uncovered tracks sorted all nothing)
        | inr (t, inside, same) ↦
            let (before, at) =
              contiguous_end-covers time 0 t.buffered (AreSorted-In t tracks sorted inside) in
            let least = contiguous_end-le time t.buffered in
            let end : contiguous_end time t.buffered ≡ time + ahead_from time 0 tracks =
              omega (arith, same, least) in
            inr (t, inside, λ u h h'. before u h (rw end h'), rw⁻¹ end at)
      ],
      λ t inside. omega (arith, all t inside),
    )
  where
    uncovered :
        (ts : List Track)
        → AreSorted ts
        → ((t : Track) → In t ts → contiguous_end time t.buffered - time ≤ ahead_from time 0 tracks)
        → ahead_from time 0 tracks ≡ 0
        → already_buffered time ts ≡ false
    uncovered [] sorted' all nothing = refl
    uncovered (t ∷ ts) (first, later) all nothing =
        let (_, at) = contiguous_end-covers time 0 t.buffered first in
        let none_ahead : contiguous_end time t.buffered ≡ time =
          omega (arith, all t (inl refl), nothing, contiguous_end-le time t.buffered) in
        is_covered_head time t ts (rw none_ahead at at)
