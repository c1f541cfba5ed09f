-- ===== src/Video/Bootstrap/Moov.antt =====
-- The metadata box that a stream starts from.
use save_box.Prelude.{
  ℕ, zero, suc, ◌+◌, ◌-◌, ◌*◌, ◌≤◌, ◌<◌, ◌≡◌, ◌⊎◌, refl, ap, ◌∙◌, inl, inr, some, none, [], ◌∷◌, ok,
  arith, length, take, drop, drop-drop, length-take, length-drop, leb, ◌==◌, ==_iff, Bool-cases,
  Option-cases,
}
use mathlib.Core.Path.{ap₂}
use save_box.Prelude.Words.{Bytes, slice}
use save_box.Crypto.Kasumi.{chunk_size}
use save_box.Video.Run.{chunks_of}
use save_box.Video.Run.Order.{byte_at, chunks_of_bound, chunks_of_inside}
use save_box.Video.Bootstrap.{
  moov_code, get_uint32, Box, scan_moov, whole_moov, Bootstrap, bootstrap_last_chunk, first_range,
  last_range,
}

scan_moov-some :
    (bytes : Bytes) (rounds i : ℕ) (box : Box)
    → 4 ≤ i
    → scan_moov bytes rounds i ≡ some box
    → (get_uint32 bytes (box.box_offset + 4) ≡ moov_code)
      × (box.box_size ≡ get_uint32 bytes box.box_offset)
unfolding scan_moov
scan_moov-some bytes zero i box h e = cc
scan_moov-some bytes (suc rounds) i box h e = elim (Bool-cases (get_uint32 bytes i == moov_code)) [
  | inr other ↦ scan_moov-some bytes rounds (i + 1) box (omega arith) (rw other at e)
  | inl found ↦
      let this : Box = record { box_offset = i - 4; box_size = get_uint32 bytes (i - 4) } in
      let result : some this ≡ some box = rw found at e in
      let box_is : this ≡ box = cc in
      let back : i - 4 + 4 ≡ i = omega arith in rw⁻¹ box_is (rw back ((==_iff _ _).0 found), refl)
]

take-take : (w l : ℕ) (xs : Bytes) → w ≤ l → take w (take l xs) ≡ take w xs
take-take zero l xs h = refl
take-take (suc w) zero xs h = absurd (omega arith)
take-take (suc w) (suc l) [] h = refl
take-take (suc w) (suc l) (x ∷ xs) h = ap (◌∷◌ x) (take-take w l xs (omega arith))

take-drop_within :
    (o w l : ℕ) (xs : Bytes) → o + w ≤ l → take w (drop o (take l xs)) ≡ take w (drop o xs)
take-drop_within zero w l xs h = take-take w l xs (omega arith)
take-drop_within (suc o) w zero xs h = absurd (omega arith)
take-drop_within (suc o) w (suc l) [] h = refl
take-drop_within (suc o) w (suc l) (x ∷ xs) h = take-drop_within o w l xs (omega arith)

-- A part of a slice that the slice holds whole.
slice-slice :
    (file : Bytes) (from to o w : ℕ)
    → o + w ≤ length (slice file from to)
    → slice (slice file from to) o (o + w) ≡ slice file (from + o) (from + o + w)
slice-slice file from to o w h =
    let long = length-take (to - from) (drop from file) in
    let inner : o + w - o ≡ w = omega arith in
    let outer : from + o + w - (from + o) ≡ w = omega arith in
    rw (inner, outer)
      (take-drop_within o w (to - from) (drop from file) (omega (arith, long))
        ∙ ap (take w) (drop-drop from o file))

whole_moov-some :
    (bytes : Bytes) (box : Box)
    → whole_moov bytes ≡ some box
    → (get_uint32 bytes (box.box_offset + 4) ≡ moov_code)
      × (box.box_size ≡ get_uint32 bytes box.box_offset)
      × (box.box_offset + box.box_size ≤ length bytes)
unfolding whole_moov
whole_moov-some bytes box e = elim (Option-cases (scan_moov bytes (length bytes - 8) 4)) [
  | inl nothing ↦ cc (rw (nothing, whole_moov) at e)
  | inr (found, scanned) ↦
      elim (Bool-cases (leb (found.box_offset + found.box_size) (length bytes))) [
        | inr cut ↦ cc (rw (scanned, whole_moov, cut) at e)
        | inl whole ↦
            let result : some found ≡ some box = rw (scanned, whole_moov, whole) at e in
            let same : found ≡ box = cc in
            let (code, size) = scan_moov-some bytes _ 4 found (omega arith) scanned in
            rw⁻¹ same (code, size, ground arith)
      ]
]

length-slice_last :
    (file : Bytes) (from : ℕ) → length (slice file from (from + chunk_size)) ≤ length file - from
length-slice_last file from =
    omega (arith, length-take (from + chunk_size - from) (drop from file), length-drop from file)

-- The requests at the start are for the first chunk and for the last one.
pub first_range-byte_at :
    (offset size : ℕ)
    → 0 < size
    → (first_range offset size ≡ (byte_at offset size 0, byte_at offset size 1 - 1))
      × (last_range offset size (chunks_of size)
          ≡ (byte_at offset size (chunks_of size - 1), byte_at offset size (chunks_of size) - 1))
unfolding first_range last_range byte_at
first_range-byte_at offset size h =
    let bound = chunks_of_bound size in
    let chunk : 0 < chunks_of size = omega (arith, chunks_of_bound size) in
    let inside = chunks_of_inside size (chunks_of size - 1) (omega arith) in
    (
      ap₂ (λ (a b : ℕ). (a, b)) (omega arith) (omega arith),
      ap₂ (λ (a b : ℕ). (a, b)) (omega arith) (omega arith),
    )

-- If the start of a file needs its metadata from the last chunk, the bytes that it sends stand in the file
-- at the place that it sends with them, within the last chunk, marked there "moov" and as many as the size
-- field before the mark says, and playing starts with chunk 0. Else it starts with chunk 1, and only when the box lies
-- whole in chunk 0.
pub bootstrap_last_chunk-moov :
    (file : Bytes) (b : Bootstrap)
    → bootstrap_last_chunk (chunks_of (length file)) (slice file 0 chunk_size) (
        slice file
          ((chunks_of (length file) - 1) * chunk_size)
          ((chunks_of (length file) - 1) * chunk_size + chunk_size))
      ≡ ok b
    → ((b.first_chunk ≡ 1)
        × (b.moov_bytes ≡ none)
        × (place : ℕ) × (size : ℕ) × (get_uint32 (slice file 0 chunk_size) (place + 4) ≡ moov_code)
        × (size ≡ get_uint32 (slice file 0 chunk_size) place)
        × (place + size ≤ length (slice file 0 chunk_size)))
      ⊎ ((b.first_chunk ≡ 0)
          × (place : ℕ) × (size : ℕ) × (b.moov_offset ≡ some place)
          × (b.moov_bytes ≡ some (slice file place (place + size)))
          × (offset : ℕ) × (place ≡ (chunks_of (length file) - 1) * chunk_size + offset)
          × (get_uint32
                (slice file
                  ((chunks_of (length file) - 1) * chunk_size)
                  ((chunks_of (length file) - 1) * chunk_size + chunk_size))
                (offset + 4)
              ≡ moov_code)
          × (size
              ≡ get_uint32
                  (slice file
                    ((chunks_of (length file) - 1) * chunk_size)
                    ((chunks_of (length file) - 1) * chunk_size + chunk_size))
                  offset)
          × (place + size ≤ length file))
unfolding bootstrap_last_chunk chunks_of
bootstrap_last_chunk-moov file b e = elim (Option-cases (whole_moov (slice file 0 chunk_size))) [
  | inr (box, found) ↦
      let (code, size, inside) = whole_moov-some (slice file 0 chunk_size) box found in
      let result = rw (found, bootstrap_last_chunk) at e in
      let first : b.first_chunk ≡ 1 = cc in
      let bytes : b.moov_bytes ≡ none = cc in
      inl (first, bytes, box.box_offset, box.box_size, code, size, inside)
  | inl missing ↦
      let from = (chunks_of (length file) - 1) * chunk_size in
      let last = slice file from (from + chunk_size) in
      elim (Option-cases (whole_moov last)) [
        | inl absent ↦ cc (rw (missing, bootstrap_last_chunk, absent) at e)
        | inr (box, found) ↦
            let (code, size, inside) = whole_moov-some last box found in
            let result = rw (missing, bootstrap_last_chunk, found) at e in
            let first : b.first_chunk ≡ 0 = cc in
            let place : b.moov_offset ≡ some (from + box.box_offset) = cc in
            let bytes : b.moov_bytes
                ≡ some (slice last box.box_offset (box.box_offset + box.box_size)) =
              cc in
            let within =
              slice-slice file from (from + chunk_size) box.box_offset box.box_size inside in
            inr (
              first,
              from + box.box_offset,
              box.box_size,
              place,
              bytes ∙ ap some within,
              box.box_offset,
              refl,
              code,
              size,
              omega (arith, inside, length-slice_last file from),
            )
      ]
]
