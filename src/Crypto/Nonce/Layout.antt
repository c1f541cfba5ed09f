-- ===== src/Crypto/Nonce/Layout.antt =====
-- The bytes of a derived nonce.
use Prim.Native.Nat.{bit_xor}
use native.Mathlib.Nat.{pow-suc, pow-zero, div-div-eq-div-mul, mul_comm}
use save_box.Prelude.{
  if◌then◌else◌, false, ℕ, zero, suc, ◌+◌, ◌-◌, ◌/◌, ◌%◌, ◌^◌, ◌≤◌, ◌<◌, ◌≡◌, refl, sym, ap, [],
  ◌∷◌, ◌∙◌, Bool, true, arith, length, get_or, ◌==◌, ==_iff, length-set, get_or-set_self,
  get_or-set_ne,
}
use save_box.Prelude.Words.{Bytes}
use save_box.Crypto.Platform.{nonce_size}
use save_box.Crypto.Nonce.{xor_index, derive_chunk_nonce}

length-xor_index : (r i : ℕ) (n : Bytes) (c : ℕ) → length (xor_index r i n c) ≡ length n
unfolding xor_index
length-xor_index zero i n c = refl
length-xor_index (suc r) i n c = length-xor_index r (i + 1) _ (c / 256) ∙ length-set n _ _

pub length-derive_chunk_nonce : (n : Bytes) (c : ℕ) → length (derive_chunk_nonce n c) ≡ length n
unfolding derive_chunk_nonce
length-derive_chunk_nonce n c = length-xor_index 8 0 n c

-- The rounds from `i` on leave the bytes behind position 23 - i alone, and those before 24 - i - r.
xor_index_before :
    (r i j : ℕ) (n : Bytes) (c : ℕ)
    → i + r ≤ nonce_size
    → (j + i + r < nonce_size)
    → get_or (xor_index r i n c) j 0 ≡ get_or n j 0
unfolding xor_index
xor_index_before zero i j n c h k = refl
xor_index_before (suc r) i j n c h k =
    xor_index_before r (i + 1) j _ (c / 256) (omega arith) (omega arith)
    ∙ get_or-set_ne n (nonce_size - 1 - i) j _ 0 (omega arith)

xor_index_after :
    (r i j : ℕ) (n : Bytes) (c : ℕ)
    → i + r ≤ nonce_size
    → nonce_size ≤ j + i
    → get_or (xor_index r i n c) j 0 ≡ get_or n j 0
unfolding xor_index
xor_index_after zero i j n c h k = refl
xor_index_after (suc r) i j n c h k =
    xor_index_after r (i + 1) j _ (c / 256) (omega arith) (omega arith)
    ∙ get_or-set_ne n (nonce_size - 1 - i) j _ 0 (omega arith)

-- Byte `k` of the index, least significant first, meets position 23 - k.
xor_index_at :
    (r i k : ℕ) (n : Bytes) (c : ℕ)
    → length n ≡ nonce_size
    → i + r ≤ nonce_size
    → k < r
    → get_or (xor_index r i n c) (nonce_size - 1 - (i + k)) 0
      ≡ bit_xor (get_or n (nonce_size - 1 - (i + k)) 0) (c / 256 ^ k % 256)
unfolding xor_index
xor_index_at zero i k n c l h lt = elim lt [ ]
xor_index_at (suc r) i zero n c l h lt =
    let here : i + zero ≡ i = omega arith in
    let whole : c / 256 ^ zero ≡ c = rw pow-zero (omega arith) in
    rw (here, whole)
      (xor_index_after r (i + 1) (nonce_size - 1 - i) _ (c / 256) (omega arith) (omega arith)
        ∙ get_or-set_self n (nonce_size - 1 - i) _ 0 (omega arith))
xor_index_at (suc r) i (suc k) n c l h lt =
    let next : i + suc k ≡ (i + 1) + k = omega arith in
    let shift : c / 256 ^ suc k ≡ c / 256 / 256 ^ k =
      rw (pow-suc 256 k)
        (sym (div-div-eq-div-mul c 256 (256 ^ k) ∙ ap (λ d. c / d) (mul_comm 256 (256 ^ k)))) in
    rw (next, shift)
      (xor_index_at r (i + 1) k _ (c / 256) (length-set n _ _ ∙ l) (omega arith) (omega arith)
        ∙ ap (λ b. bit_xor b (c / 256 / 256 ^ k % 256))
            (get_or-set_ne n (nonce_size - 1 - i) (nonce_size - 1 - (i + 1 + k)) _ 0 (omega arith)))

-- Of a base nonce of 24 bytes, the derived nonce keeps bytes 0 to 15, and byte 23 - k, for k below 8, is
-- that of the base nonce XOR byte k of the index, least significant first: it lies there big-endian.
pub get_or-derive_chunk_nonce :
    (n : Bytes) (index j k : ℕ)
    → length n ≡ nonce_size
    → j < 16
    → k < 8
    → (get_or (derive_chunk_nonce n index) j 0 ≡ get_or n j 0)
      × (get_or (derive_chunk_nonce n index) (23 - k) 0
          ≡ bit_xor (get_or n (23 - k) 0) (index / 256 ^ k % 256))
unfolding derive_chunk_nonce
get_or-derive_chunk_nonce n index j k l h lt =
    let at : zero + k ≡ k = omega arith in
    let byte = xor_index_at 8 0 k n index l (omega arith) lt in
    (xor_index_before 8 0 j n index (omega arith) (omega arith), rw at at byte)

abbrev pub IsBytes : Bytes → Type 0
IsBytes [] = Unit
IsBytes (b ∷ bs) = (b < 256) × IsBytes bs

get_or-lt : (bs : Bytes) (i : ℕ) → IsBytes bs → get_or bs i 0 < 256
get_or-lt [] i h = omega arith
get_or-lt (b ∷ bs) zero h = h.0
get_or-lt (b ∷ bs) (suc i) h = get_or-lt bs i h.1

-- Whether a test succeeds on each byte value under a bound.
passes : (ℕ → Bool) → ℕ → Bool
passes test zero = true
passes test (suc top) = let others = passes test top in if test top then others else false

passes-lem :
    (test : ℕ → Bool) (top value : ℕ) → passes test top ≡ true → value < top → test value ≡ true
unfolding passes
passes-lem test zero value ran bound = absurd (omega arith)
passes-lem test (suc top) value ran bound = ground (arith, passes-lem test top value)

-- XOR with `a` undone by itself, on all bytes.
involutive : ℕ → Bool
unfolding passes
involutive a = passes (λ x. bit_xor a (bit_xor a x) == x) 256

involutive_all : passes involutive 256 ≡ true
unfolding involutive
involutive_all = refl

xor_cancel : (a x : ℕ) → a < 256 → x < 256 → bit_xor a (bit_xor a x) ≡ x
unfolding involutive
xor_cancel a x ha hx =
    let row : involutive a ≡ true = passes-lem involutive 256 a involutive_all ha in
    let cell : (bit_xor a (bit_xor a x) == x) ≡ true =
      passes-lem (λ y. bit_xor a (bit_xor a y) == y) 256 x row hx in
    (==_iff _ x).0 cell

xor_injective : (a x y : ℕ) → a < 256 → x < 256 → y < 256 → bit_xor a x ≡ bit_xor a y → x ≡ y
xor_injective a x y ha hx hy e =
    sym (xor_cancel a x ha hx) ∙ (ap (bit_xor a) e ∙ xor_cancel a y ha hy)

byte-suc : (c k : ℕ) → c / 256 ^ suc k % 256 ≡ c / 256 / 256 ^ k % 256
byte-suc c k =
    ap (λ d. d % 256)
      (rw (pow-suc 256 k)
        (sym (div-div-eq-div-mul c 256 (256 ^ k) ∙ ap (λ d. c / d) (mul_comm 256 (256 ^ k)))))

-- A number below 256 ^ r is given by its first r bytes.
eq_of_bytes :
    (r c d : ℕ)
    → c < 256 ^ r
    → d < 256 ^ r
    → ((k : ℕ) → k < r → c / 256 ^ k % 256 ≡ d / 256 ^ k % 256)
    → c ≡ d
eq_of_bytes zero c d hc hd e = omega (arith, pow-zero 256)
eq_of_bytes (suc r) c d hc hd e =
    let low : c % 256 ≡ d % 256 =
      rw (pow-zero 256, div-one c, div-one d) at (e zero (omega arith)) in
    let high : c / 256 ≡ d / 256 =
      eq_of_bytes r (c / 256) (d / 256) (omega (arith, pow-suc 256 r))
        (omega (arith, pow-suc 256 r))
        (λ k h. sym (byte-suc c k) ∙ (e (suc k) (omega arith) ∙ byte-suc d k)) in
    omega (arith, low, high)
  where
    div-one : (m : ℕ) → m / 1 ≡ m
    div-one m = omega arith

-- For a base nonce of 24 bytes, two indices below 2^64 that derive the same nonce are the same index.
pub derive_chunk_nonce_injective :
    (n : Bytes) (i j : ℕ)
    → length n ≡ nonce_size
    → IsBytes n
    → i < 2 ^ 64
    → j < 2 ^ 64
    → derive_chunk_nonce n i ≡ derive_chunk_nonce n j
    → i ≡ j
derive_chunk_nonce_injective n i j l b hi hj e =
    eq_of_bytes 8 i j (omega arith) (omega arith) λ k h.
      xor_injective (get_or n (23 - k) 0) (i / 256 ^ k % 256) (j / 256 ^ k % 256)
        (get_or-lt n (23 - k) b) (omega arith) (omega arith)
        (sym ((get_or-derive_chunk_nonce n i 0 k l (omega arith) h).1)
          ∙ (ap (λ m. get_or m (23 - k) 0) e
              ∙ (get_or-derive_chunk_nonce n j 0 k l (omega arith) h).1))
