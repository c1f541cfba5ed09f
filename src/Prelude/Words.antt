-- ===== src/Prelude/Words.antt =====
-- Bytes: slices, writes into a buffer, and little-endian integers as `DataView` stores them.
use mathlib.Core.List.{List, [], ◌∷◌, ◌++◌, append_assoc}
use mathlib.Core.Option.{Option, none, some}
use mathlib.Core.Path.{◌≡◌, refl, sym, ap, ◌∙◌}
use native.Mathlib.Nat.{pow-suc, pow-zero}
use native.Mathlib.Omega.{arith}
use Prim.Native.Nat.{ℕ, zero, suc, ◌+◌, ◌-◌, ◌*◌, ◌/◌, ◌%◌, ◌^◌, ◌≤◌, ◌<◌}
use save_box.Prelude.Tests.{leb, if◌then◌else◌, le→leb}
use save_box.Prelude.Lists.{
  length, take, drop, replicate, length-append, take-append, drop-append, drop-drop,
}

abbrev pub Bytes : Type 0
Bytes = List ℕ

-- A fresh buffer.
abbrev pub zeros : ℕ → Bytes
zeros n = replicate n 0

-- `slice(start, end)` of a Blob or a Uint8Array, for 0 ≤ start ≤ end.
abbrev pub slice : Bytes → ℕ → ℕ → Bytes
slice b start end_at = take (end_at - start) (drop start b)

-- `buffer.set(src, offset)`: a RangeError is `none`.
abbrev pub write_at : Bytes → ℕ → Bytes → Option Bytes
write_at b offset src =
    if leb (offset + length src) (length b)
    then some (take offset b ++ (src ++ drop (offset + length src) b))
    else none

-- An unsigned integer of `n` bytes, least significant first, with the wrap-around of the width.
abbrev pub le_bytes : ℕ → ℕ → Bytes
le_bytes zero v = []
le_bytes (suc n) v = (v % 256) ∷ le_bytes n (v / 256)

abbrev pub le_value : Bytes → ℕ
le_value [] = 0
le_value (b ∷ bs) = b + 256 * le_value bs

pub length-le_bytes : (n v : ℕ) → length (le_bytes n v) ≡ n
length-le_bytes zero v = refl
length-le_bytes (suc n) v = ap suc (length-le_bytes n (v / 256))

-- What fits the width is read back.
pub le_value-le_bytes : (n v : ℕ) → v < 256 ^ n → le_value (le_bytes n v) ≡ v
le_value-le_bytes zero v h = omega (arith, pow-zero 256)
le_value-le_bytes (suc n) v h =
    let small : v / 256 < 256 ^ n = omega (arith, pow-suc 256 n) in
    omega (arith, le_value-le_bytes n (v / 256) small)

-- The middle of three pieces is cut out by its offset and its width.
pub slice_middle :
    (pre mid post : Bytes) (o e : ℕ)
    → length pre ≡ o
    → o + length mid ≡ e
    → slice (pre ++ (mid ++ post)) o e ≡ mid
slice_middle pre mid post o e h k =
    let width : e - o ≡ length mid = omega arith in
    rw (width, drop-append o pre (mid ++ post) h) (take-append (length mid) mid post refl)

-- A write over a piece of the same width replaces it.
pub write_middle :
    (pre mid post src : Bytes) (o : ℕ)
    → length pre ≡ o
    → length src ≡ length mid
    → write_at (pre ++ (mid ++ post)) o src ≡ some (pre ++ (src ++ post))
write_middle pre mid post src o h k =
    let room : o + length src ≤ length (pre ++ (mid ++ post)) =
      omega (arith, length-append pre (mid ++ post), length-append mid post) in
    let rest : drop (o + length src) (pre ++ (mid ++ post)) ≡ post =
      sym (drop-drop o (length src) (pre ++ (mid ++ post)))
      ∙ (ap (drop (length src)) (drop-append o pre (mid ++ post) h)
          ∙ drop-append (length src) mid post (sym k)) in
    rw (le→leb _ _ room, rest, take-append o pre (mid ++ post) h) refl

-- The same for the third of four pieces.
pub slice_third :
    (pre a mid post : Bytes) (o e : ℕ)
    → length pre + length a ≡ o
    → o + length mid ≡ e
    → slice (pre ++ (a ++ (mid ++ post))) o e ≡ mid
slice_third pre a mid post o e h k =
    rw (← append_assoc pre a (mid ++ post))
      (slice_middle (pre ++ a) mid post o e (length-append pre a ∙ h) k)

pub write_third :
    (pre a mid post src : Bytes) (o : ℕ)
    → length pre + length a ≡ o
    → length src ≡ length mid
    → write_at (pre ++ (a ++ (mid ++ post))) o src ≡ some (pre ++ (a ++ (src ++ post)))
write_third pre a mid post src o h k =
    rw (← append_assoc pre a (mid ++ post), ← append_assoc pre a (src ++ post))
      (write_middle (pre ++ a) mid post src o (length-append pre a ∙ h) k)
