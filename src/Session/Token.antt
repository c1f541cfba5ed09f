-- ===== src/Session/Token.antt =====
-- The payload of a JWT, as `decodeUserFromIdToken` and `isVaultInitializedFromToken` of AuthService
-- read it (frontend/src/app/core/auth/auth.service.ts). A token is the list of its characters.
use save_box.Prelude.{
  ℕ, zero, suc, ◌+◌, ◌%◌, ◌≤◌, ◌≡◌, sym, ◌∙◌, ◌⊎◌, Bool, true, false, inl, inr, Option, some, none,
  List, [], ◌∷◌, ◌++◌, map, arith, length, length-append, replicate, String, ◌==◌, ==_iff,
  if◌then◌else◌, append_assoc, append-nil, Bool-cases, Option-cases, ◌≢◌,
}
use text.Mathlib.Text.{◌==◌ as str_eq}
use save_box.Session.App.{UserInfo}

abbrev pub Text : Type 0
Text = List ℕ

-- What JSON.parse finds under `is_vault_initialized`.
pub data Flag : Type 0 where
  bool : Bool → Flag
  str : String → Flag
  other : Flag

pub record Payload : Type 0 where
  pub email : Option String
  pub name : Option String
  pub picture : Option String
  pub is_vault_initialized : Flag

-- The decoders of the browser: atob with the repair of UTF-8 and JSON.parse, and atob with
-- JSON.parse; `none` is an exception of any of them.
pub record Decoders : Type 0 where
  pub parse_utf8 : Text → Option Payload
  pub parse : Text → Option Payload

-- `split`: never empty.
unfoldable pub split_on : ℕ → Text → Text × List Text
split_on sep [] = ([], [])
split_on sep (c ∷ s) =
    let (first, rest) = split_on sep s in if c == sep then ([], first ∷ rest) else (c ∷ first, rest)

unfoldable pub second_segment : Text → Option Text
unfolding split_on
second_segment token = elim (split_on b'.' token).1 [ [] ↦ none | s ∷ rest ↦ some s ]

unfoldable pub url_safe : ℕ → ℕ
url_safe c = if c == b'-' then b'+' else if c == b'_' then b'/' else c

-- `while (payloadSegment.length % 4) payloadSegment += '='`
unfoldable pub pad_loop : ℕ → Text → Text
pad_loop zero s = s
pad_loop (suc fuel) s = elim (length s % 4 == 0) [
  | true ↦ s
  | false ↦ pad_loop fuel (s ++ b'=' ∷ [])
]

unfoldable pub segment : Text → Option Text
unfolding second_segment url_safe pad_loop
segment token = elim (second_segment token) [
  | none ↦ none
  | some s ↦ some (pad_loop 3 (map url_safe s))
]

abbrev or_empty : Option String → String
or_empty none = ""
or_empty (some s) = s

unfoldable pub decode_user : Decoders → Text → UserInfo
unfolding segment
decode_user d token = elim (segment token) [
  | none ↦ record { email = some ""; name = ""; picture = "" }
  | some s ↦ elim (d.parse_utf8 s) [
    | none ↦ record { email = some ""; name = ""; picture = "" }
    | some c ↦ record { email = c.email; name = or_empty c.name; picture = or_empty c.picture }
  ]
]

abbrev is_true : Flag → Bool
is_true (bool b) = b
is_true (str s) = str_eq s "true"
is_true other = false

unfoldable pub is_vault_initialized : Decoders → Text → Bool
unfolding segment
is_vault_initialized d token = elim (segment token) [
  | none ↦ false
  | some s ↦ elim (d.parse s) [ none ↦ false | some c ↦ is_true c.is_vault_initialized ]
]

start_cases : (m : ℕ) → (4 ≤ m % 4 + 3) ⊎ (m % 4 ≡ 0)
start_cases m = elim (Bool-cases (m % 4 == 0)) [
  | inl even ↦ inr ((==_iff (m % 4) 0).0 even)
  | inr odd ↦ let uneven : m % 4 ≢ 0 = ground arith in inl (omega arith)
]

next_cases :
    (m f : ℕ)
    → m % 4 ≢ 0
    → (4 ≤ m % 4 + suc f) ⊎ (m % 4 ≡ 0)
    → (4 ≤ (m + 1) % 4 + f) ⊎ ((m + 1) % 4 ≡ 0)
next_cases m f odd (inr even) = absurd (odd even)
next_cases m f odd (inl h) = elim (Bool-cases ((m + 1) % 4 == 0)) [
  | inl even ↦ inr ((==_iff ((m + 1) % 4) 0).0 even)
  | inr more ↦ let uneven : (m + 1) % 4 ≢ 0 = ground arith in inl (omega arith)
]

-- The loop appends `=` until the length is a multiple of four.
pad_loop-rounds :
    (fuel : ℕ) (s : Text)
    → (4 ≤ length s % 4 + fuel) ⊎ (length s % 4 ≡ 0)
    → (n : ℕ) × (pad_loop fuel s ≡ s ++ replicate n b'=')
      × (length (pad_loop fuel s) % 4 ≡ 0)
      × (n ≤ fuel)
unfolding pad_loop
pad_loop-rounds zero s (inl h) = absurd (omega arith)
pad_loop-rounds zero s (inr h) = (0, sym (append-nil s), h, omega arith)
pad_loop-rounds (suc fuel) s h = elim (Bool-cases (length s % 4 == 0)) [
  | inl done ↦
      let even = (==_iff (length s % 4) 0).0 done in
      (0, rw (done, pad_loop) (sym (append-nil s)), rw (done, pad_loop) even, omega arith)
  | inr more ↦
      let odd : length s % 4 ≢ 0 = ground arith in
      let (n, same, whole, few) = pad_loop-rounds fuel (s ++ b'=' ∷ []) (padded fuel s odd h) in
      (
        suc n,
        rw (more, pad_loop) (same ∙ append_assoc s (b'=' ∷ []) (replicate n b'=')),
        rw (more, pad_loop) whole,
        omega arith,
      )
]
  where
    padded :
        (f : ℕ) (r : Text)
        → length r % 4 ≢ 0
        → (4 ≤ length r % 4 + suc f) ⊎ (length r % 4 ≡ 0)
        → (4 ≤ length (r ++ b'=' ∷ []) % 4 + f) ⊎ (length (r ++ b'=' ∷ []) % 4 ≡ 0)
    padded f r odd k = rw (length-append r (b'=' ∷ [])) (next_cases (length r) f odd k)

-- The payload segment of a token reaches atob as the second part of the token, translated from the
-- url-safe alphabet, with at most three `=` behind it and a length that is a multiple of four.
pub segment-padded :
    (token s : Text)
    → segment token ≡ some s
    → (raw : Text) × (n : ℕ) × (second_segment token ≡ some raw)
      × (s ≡ map url_safe raw ++ replicate n b'=')
      × (n ≤ 3)
      × (length s % 4 ≡ 0)
unfolding segment
segment-padded token s h = elim (Option-cases (second_segment token)) [
  | inl missing ↦ cc (rw (missing, segment) at h)
  | inr (raw, found) ↦
      let made : some (pad_loop 3 (map url_safe raw)) ≡ some s = rw (found, segment) at h in
      let (n, same, whole, few) =
        pad_loop-rounds 3 (map url_safe raw) (start_cases (length (map url_safe raw))) in
      let meant : pad_loop 3 (map url_safe raw) ≡ s = cc in
      (raw, n, found, sym meant ∙ same, few, rw meant at whole)
]
