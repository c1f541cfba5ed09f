-- ===== src/Crypto/Toy.antt =====
-- A platform that meets the documented behaviour: the MAC is a checksum, and a text stands for
-- bytes in unary.
use Prim.Native.Char.{Char, code}
use Prim.Native.String.{String, [], ◌∷◌}
use Prim.Native.Nat.{ℕ, zero, suc, ◌+◌, ◌%◌}
use mathlib.Core.Path.{◌≡◌, refl, ap, sym, ◌∙◌}
use mathlib.Core.Option
use mathlib.Core.Option.{Option, none, some, some-injective}
use mathlib.Core.List
use native.Mathlib.Omega.{arith}
use save_box.Prelude.{length, replicate, get_or, ◌==◌, ==_iff, Bool-cases, inl, inr, if◌then◌else◌}
use save_box.Prelude.Words.{Bytes}
use save_box.Crypto.Platform.{mac_size, Sealed, Platform, IsSound}

abbrev sum : Bytes → ℕ
sum List.[] = 0
sum (List.◌∷◌ b bs) = b + sum bs

abbrev tag : Bytes → Bytes → Bytes → ℕ
tag m n k = (sum m + sum n + sum k) % 256

unary : ℕ → String → String
unary zero s = "b" ∷ s
unary (suc n) s = "a" ∷ unary n s

to_base64 : Bytes → String
unfolding unary
to_base64 List.[] = []
to_base64 (List.◌∷◌ b bs) = unary b (to_base64 bs)

from_unary : ℕ → String → Option Bytes
from_unary n [] = some List.[]
from_unary n (c ∷ s) =
    let more = from_unary (n + 1) s in
    let next = Option.map (λ bs. List.◌∷◌ n bs) (from_unary 0 s) in
    if code c == b'a' then more else next

codes : String → Bytes
codes [] = List.[]
codes (c ∷ s) = List.◌∷◌ (code c) (codes s)

encrypt_detached : Bytes → Bytes → Bytes → Option Sealed
encrypt_detached m n k = some (record { ciphertext = m; mac = replicate 16 (tag m n k) })

decrypt_detached : Bytes → Bytes → Bytes → Bytes → Option Bytes
decrypt_detached c a n k = if get_or a 0 0 == tag c n k then some c else none

-- The characters that the tests write.
glyph : ℕ → Char
glyph c =
    if c == b'a'
    then "a"
    else if c == b'b'
    then "b"
    else if c == b'K'
    then "K"
    else if c == b'A'
    then "A"
    else if c == b'S'
    then "S"
    else if c == b'2'
    then "2"
    else "?"

decode : Bytes → String
unfolding glyph
decode List.[] = []
decode (List.◌∷◌ b bs) = glyph b ∷ decode bs

unfoldable pub toy : Platform
unfolding encrypt_detached decrypt_detached to_base64 from_unary codes decode
toy = record {
  encrypt_detached = encrypt_detached;
  decrypt_detached = decrypt_detached;
  to_base64 = to_base64;
  from_base64 = from_unary 0;
  encode = codes;
  decode = decode;
}

from_unary-unary :
    (n m : ℕ) (s : String)
    → from_unary m (unary n s) ≡ Option.map (λ bs. List.◌∷◌ (m + n) bs) (from_unary 0 s)
unfolding from_unary unary
from_unary-unary zero m s =
    ap (λ (k : ℕ). Option.map (λ (bs : Bytes). List.◌∷◌ k bs) (from_unary 0 s)) (omega arith)
from_unary-unary (suc n) m s =
    from_unary-unary n (m + 1) s
    ∙ ap (λ (k : ℕ). Option.map (λ (bs : Bytes). List.◌∷◌ k bs) (from_unary 0 s)) (omega arith)

from-to : (b : Bytes) → from_unary 0 (to_base64 b) ≡ some b
unfolding from_unary to_base64
from-to List.[] = refl
from-to (List.◌∷◌ b bs) =
    from_unary-unary b 0 (to_base64 bs)
    ∙ rw (from-to bs) (ap (λ (k : ℕ). some (List.◌∷◌ k bs)) (omega arith))

decode-unary : (n : ℕ) (s : String) → decode (codes s) ≡ s → decode (codes (unary n s)) ≡ unary n s
unfolding decode codes unary
decode-unary zero s h = ap (λ (t : String). "b" ∷ t) h
decode-unary (suc n) s h = ap (λ (t : String). "a" ∷ t) (decode-unary n s h)

-- The text for bytes is read back.
pub decode-to_base64 : (b : Bytes) → toy.decode (toy.encode (toy.to_base64 b)) ≡ toy.to_base64 b
unfolding toy decode codes to_base64
decode-to_base64 List.[] = refl
decode-to_base64 (List.◌∷◌ b bs) = decode-unary b (to_base64 bs) (decode-to_base64 bs)

sealed-parts :
    (m n k : Bytes) (s : Sealed)
    → encrypt_detached m n k ≡ some s
    → (length s.mac ≡ mac_size)
      × (s.ciphertext ≡ m)
      × (decrypt_detached s.ciphertext s.mac n k ≡ some m)
unfolding encrypt_detached decrypt_detached
sealed-parts m n k s e =
    let mac : s.mac ≡ replicate 16 (tag m n k) = cc in
    let body : s.ciphertext ≡ m = cc in
    (ap length mac, body, rw (mac, body, (==_iff (tag m n k) (tag m n k)).1 refl) refl)

opened-length : (c a n k m : Bytes) → decrypt_detached c a n k ≡ some m → length m ≡ length c
unfolding decrypt_detached
opened-length c a n k m e = elim (Bool-cases (get_or a 0 0 == tag c n k)) [
  | inl same ↦ ap length (sym (some-injective c m (rw same at e)))
  | inr other ↦ cc (rw other at e)
]

pub toy-IsSound : IsSound toy
unfolding toy
toy-IsSound = record {
  seals = λ m n k hn hk. (record { ciphertext = m; mac = replicate 16 (tag m n k) }, refl);
  length-mac = λ {m} {n} {k} {s} e. (sealed-parts m n k s e).0;
  length-ciphertext = λ {m} {n} {k} {s} e. ap length (sealed-parts m n k s e).1;
  opens = λ {m} {n} {k} {s} e. (sealed-parts m n k s e).2;
  length-opened = λ {c} {a} {n} {k} {m} e. opened-length c a n k m e;
  from-to = from-to;
  from-empty = refl;
  encode-magic = refl;
  decode-magic = refl;
}
