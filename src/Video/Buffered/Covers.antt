-- ===== src/Video/Buffered/Covers.antt =====
-- The part of one track that `computeBufferedAhead` counts, and the test of `onSeek` on that track.
use save_box.Prelude.{
  ℕ, ◌+◌, ◌≤◌, ◌<◌, max, ◌≡◌, refl, true, false, ◌∙◌, ◌⊎◌, inl, inr, List, [], ◌∷◌, arith, ltb, leb,
  Bool-cases,
}
use save_box.Video.{TimeRange}
use save_box.Video.Buffered.{contiguous_end, is_covered, gap}

-- The ranges come in the order of their starts.
abbrev pub StartsFrom : ℕ → List TimeRange → Type 0
StartsFrom bound [] = Unit
StartsFrom bound (r ∷ ranges) = (bound ≤ r.from) × StartsFrom r.from ranges

pub contiguous_end-le : (time : ℕ) (ranges : List TimeRange) → time ≤ contiguous_end time ranges
unfolding contiguous_end
contiguous_end-le time [] = omega arith
contiguous_end-le time (r ∷ ranges) =
    let skipped = contiguous_end-le time ranges in
    let extended : time ≤ contiguous_end (max time r.to) ranges =
      omega (arith, contiguous_end-le (max time r.to) ranges) in
    ground arith

-- A range of which the time is past, or which is beyond the gap.
is_covered-skip :
    (u : ℕ) (r : TimeRange) (ranges : List TimeRange)
    → (r.to ≤ u) ⊎ (u + gap < r.from)
    → is_covered u (r ∷ ranges) ≡ is_covered u ranges
unfolding is_covered
is_covered-skip u r ranges h = ground arith

is_covered-after :
    (u bound : ℕ) (ranges : List TimeRange)
    → StartsFrom bound ranges
    → u + gap < bound
    → is_covered u ranges ≡ false
unfolding is_covered
is_covered-after u bound [] h far = refl
is_covered-after u bound (r ∷ ranges) (first, later) far =
    let beyond : u + gap < r.from = omega arith in
    let rest : is_covered u ranges ≡ false = is_covered-after u r.from ranges later beyond in
    ground arith

is_covered_empty : (u : ℕ) → is_covered u [] ≡ false
unfolding is_covered
is_covered_empty u = refl

-- The three cases of the loop's body.
contiguous_end-past :
    (time : ℕ) (r : TimeRange) (ranges : List TimeRange)
    → leb r.to time ≡ true
    → contiguous_end time (r ∷ ranges) ≡ contiguous_end time ranges
unfolding contiguous_end
contiguous_end-past time r ranges past = rw past refl

contiguous_end-far :
    (time : ℕ) (r : TimeRange) (ranges : List TimeRange)
    → leb r.to time ≡ false
    → ltb (time + gap) r.from ≡ true
    → contiguous_end time (r ∷ ranges) ≡ time
unfolding contiguous_end
contiguous_end-far time r ranges ahead far = rw (ahead, far) refl

contiguous_end-near :
    (time : ℕ) (r : TimeRange) (ranges : List TimeRange)
    → leb r.to time ≡ false
    → ltb (time + gap) r.from ≡ false
    → contiguous_end time (r ∷ ranges) ≡ contiguous_end (max time r.to) ranges
unfolding contiguous_end
contiguous_end-near time r ranges ahead near = rw (ahead, near) refl

-- The time up to which the loop comes is not buffered itself.
contiguous_end-is_covered :
    (time bound : ℕ) (ranges : List TimeRange)
    → StartsFrom bound ranges
    → is_covered (contiguous_end time ranges) ranges ≡ false
contiguous_end-is_covered time bound [] h = is_covered_empty (contiguous_end time [])
contiguous_end-is_covered time bound (r ∷ ranges) (first, later) =
    elim (Bool-cases (leb r.to time)) [
      | inl past ↦
          let from_time : time ≤ contiguous_end time ranges = contiguous_end-le time ranges in
          let over : r.to ≤ contiguous_end time ranges = ground arith in
          rw (contiguous_end-past time r ranges past) (
            is_covered-skip _ r ranges (inl over)
            ∙ contiguous_end-is_covered time r.from ranges later)
      | inr ahead ↦ elim (Bool-cases (ltb (time + gap) r.from)) [
        | inl far ↦
            let beyond : time + gap < r.from = ground arith in
            rw (contiguous_end-far time r ranges ahead far) (
              is_covered-skip time r ranges (inr beyond)
              ∙ is_covered-after time r.from ranges later beyond)
        | inr near ↦
            let reached : max time r.to ≤ contiguous_end (max time r.to) ranges =
              contiguous_end-le (max time r.to) ranges in
            rw (contiguous_end-near time r ranges ahead near) (
              is_covered-skip _ r ranges (inl (omega arith))
              ∙ contiguous_end-is_covered (max time r.to) r.from ranges later)
      ]
    ]

is_covered-here :
    (u : ℕ) (r : TimeRange) (ranges : List TimeRange)
    → r.from ≤ u + gap
    → u < r.to
    → is_covered u (r ∷ ranges) ≡ true
unfolding is_covered
is_covered-here u r ranges h h' = ground arith

is_covered-there :
    (u : ℕ) (r : TimeRange) (ranges : List TimeRange)
    → is_covered u ranges ≡ true
    → is_covered u (r ∷ ranges) ≡ true
unfolding is_covered
is_covered-there u r ranges h = ground arith

before_contiguous_end :
    (time u : ℕ) (ranges : List TimeRange)
    → time ≤ u
    → u < contiguous_end time ranges
    → is_covered u ranges ≡ true
unfolding contiguous_end
before_contiguous_end time u [] h h' = absurd (omega arith)
before_contiguous_end time u (r ∷ ranges) h h' = elim (Bool-cases (leb r.to time)) [
  | inl past ↦
      is_covered-there u r ranges
        (before_contiguous_end time u ranges h (rw (contiguous_end-past time r ranges past) at h'))
  | inr ahead ↦ elim (Bool-cases (ltb (time + gap) r.from)) [
    | inl far ↦
        let at_time : u < time = rw (contiguous_end-far time r ranges ahead far) at h' in
        absurd (omega arith)
    | inr near ↦
        let within : u < contiguous_end (max time r.to) ranges =
          rw (contiguous_end-near time r ranges ahead near) at h' in
        let close : r.from ≤ time + gap = ground arith in
        elim (Bool-cases (ltb u r.to)) [
          | inl inside ↦ is_covered-here u r ranges (omega arith) (ground arith)
          | inr after ↦
              is_covered-there u r ranges
                (before_contiguous_end (max time r.to) u ranges (ground arith) within)
        ]
  ]
]

-- For the ranges of one track, in the order of their starts: every time from the playhead up to where
-- `computeBufferedAhead` stops counting on this track passes the test of `onSeek` on this track, and the time
-- where it stops does not.
pub contiguous_end-covers :
    (time bound : ℕ) (ranges : List TimeRange)
    → StartsFrom bound ranges
    → ((u : ℕ) → time ≤ u → u < contiguous_end time ranges → is_covered u ranges ≡ true)
      × (is_covered (contiguous_end time ranges) ranges ≡ false)
contiguous_end-covers time bound ranges sorted = (
  λ u h h'. before_contiguous_end time u ranges h h',
  contiguous_end-is_covered time bound ranges sorted,
)
