-- ===== src/Upload/Batch/Validation.antt =====
-- What `validateResponse` accepts answers every candidate: the `byHash.get(...)!` of `process` finds its item.
use mathlib.Core.Path.{subst}
use text.Mathlib.Text.{◌==◌ as str_eq}
use text.Mathlib.TextEquality.{eq_iff}
use save_box.Prelude.{
  ℕ, suc, ◌≤◌, ◌≡◌, ◌≢◌, refl, sym, ap, ◌∙◌, true, false, some, none, List, [], ◌∷◌, String, ok,
  length, ◌==◌, ==_iff, if◌then◌else◌, arith, Bool-cases, Option-cases, inl, inr,
}
use save_box.Upload.Batch.Types.{PreparedCandidate, ResponseItem}
use save_box.Upload.Batch.Response.{
  hashes_of, has, provider_of, same_provider, complete, check_item, check_items, validate_response,
  by_hash,
}

remove : String → List String → List String
remove h [] = []
remove h (g ∷ gs) = let rest = g ∷ remove h gs in if str_eq h g then gs else rest

length-remove :
    (h : String) (gs : List String) → has gs h ≡ true → suc (length (remove h gs)) ≡ length gs
unfolding remove
length-remove h [] there = cc
length-remove h (g ∷ gs) there = elim (Bool-cases (str_eq h g)) [
  | inl same ↦ rw same refl
  | inr other ↦ rw other (ap suc (length-remove h gs (rw other at there)))
]

has-remove :
    (h k : String) (gs : List String)
    → has gs k ≡ true
    → str_eq k h ≡ false
    → has (remove h gs) k ≡ true
unfolding remove
has-remove h k [] there apart = cc
has-remove h k (g ∷ gs) there apart = elim (Bool-cases (str_eq h g)) [
  | inl same ↦
      let at : h ≡ g = (eq_iff h g).0 same in
      let away : str_eq k g ≡ false = rw at at apart in rw same (rw away at there)
  | inr other ↦ elim (Bool-cases (str_eq k g)) [
    | inl here ↦ rw (other, here) refl
    | inr further ↦ rw (other, further) (has-remove h k gs (rw further at there) apart)
  ]
]

abbrev response_hashes : List ResponseItem → List String
response_hashes [] = []
response_hashes (r ∷ rs) = r.name_hash ∷ response_hashes rs

-- What an accepted item satisfies.
record IsAccepted (items : List PreparedCandidate) (hashes : List String) (r : ResponseItem)
    : Type 0 where
  identified : r.file_id ≢ 0
  expected : has (hashes_of items) r.name_hash ≡ true
  unseen : has hashes r.name_hash ≡ false
  provided : same_provider (provider_of items r.name_hash) r.storage_provider ≡ true
  whole : complete r ≡ true

check_items-cons :
    (items : List PreparedCandidate) (hashes : List String) (ids : List ℕ) (r : ResponseItem)
    (rs : List ResponseItem)
    → check_items items hashes ids (r ∷ rs) ≡ ok tt
    → IsAccepted items hashes r
      × (check_items items (r.name_hash ∷ hashes) (r.file_id ∷ ids) rs ≡ ok tt)
unfolding check_items check_item
check_items-cons items hashes ids r rs h = ground arith

-- A response item for the candidate with the hash `h`, by the provider of that candidate.
abbrev pub Answers : List PreparedCandidate → String → ResponseItem → Type 0
Answers items h r =
    (r.name_hash ≡ h)
    × (r.file_id ≢ 0)
    × (same_provider (provider_of items h) r.storage_provider ≡ true)
    × (complete r ≡ true)

module _ (items : List PreparedCandidate) where
  -- Items without the hash `h` are at most as many as the hashes that are free for them.
  items-le-free :
      (h : String) (rs : List ResponseItem) (hashes free : List String) (ids : List ℕ)
      → ((k : String)
          → has (hashes_of items) k ≡ true
          → has hashes k ≡ false
          → str_eq k h ≡ false
          → has free k ≡ true)
      → has (response_hashes rs) h ≡ false
      → check_items items hashes ids rs ≡ ok tt
      → length rs ≤ length free
  items-le-free h [] hashes free ids room missing accepted = omega arith
  items-le-free h (r ∷ rs) hashes free ids room missing accepted =
      let (good, later) = check_items-cons items hashes ids r rs accepted in
      let apart : str_eq h r.name_hash ≡ false = ground arith in
      let apart' : str_eq r.name_hash h ≡ false = turned h r.name_hash apart in
      let here : has free r.name_hash ≡ true = room r.name_hash good.expected good.unseen apart' in
      let missing' : has (response_hashes rs) h ≡ false = rw apart at missing in
      let rest =
        items-le-free h rs (r.name_hash ∷ hashes) (remove r.name_hash free) (r.file_id ∷ ids)
          (λ k there unseen away.
            let (other, before) = unseen_parts k r.name_hash hashes unseen in
            has-remove r.name_hash k free (room k there before away) other)
          missing' later in
      omega (arith, rest, length-remove r.name_hash free here)
    where
      turned : (a b : String) → str_eq a b ≡ false → str_eq b a ≡ false
      turned a b other = elim (Bool-cases (str_eq b a)) [
        | inl same ↦ absurd (cc ((eq_iff a b).1 (sym ((eq_iff b a).0 same))))
        | inr done ↦ done
      ]

      unseen_parts :
          (k g : String) (gs : List String)
          → has (g ∷ gs) k ≡ false
          → (str_eq k g ≡ false) × (has gs k ≡ false)
      unseen_parts k g gs unseen = ground arith

  by_hash-accepted :
      (h : String) (rs : List ResponseItem) (hashes : List String) (ids : List ℕ) (r : ResponseItem)
      → check_items items hashes ids rs ≡ ok tt
      → by_hash rs h ≡ some r
      → Answers items h r
  unfolding by_hash
  by_hash-accepted h [] hashes ids r accepted found = cc
  by_hash-accepted h (q ∷ rs) hashes ids r accepted found =
      let (good, later) = check_items-cons items hashes ids q rs accepted in
      elim (Option-cases (by_hash rs h)) [
        | inr (p, there) ↦
            let same : p ≡ r = cc (rw (there, by_hash) at found) in
            by_hash-accepted h rs (q.name_hash ∷ hashes) (q.file_id ∷ ids) r later
              (there ∙ ap some same)
        | inl gone ↦ elim (Bool-cases (str_eq h q.name_hash)) [
          | inl same ↦
              let at : h ≡ q.name_hash = (eq_iff h q.name_hash).0 same in
              let mine : q ≡ r = cc (rw (gone, by_hash, same) at found) in
              subst (λ (x : ResponseItem). Answers items h x) mine
                (sym at, good.identified, rw at good.provided, good.whole)
          | inr other ↦ cc (rw (gone, by_hash, other) at found)
        ]
      ]

  by_hash-found :
      (h : String) (rs : List ResponseItem)
      → has (response_hashes rs) h ≡ true
      → by_hash rs h ≢ none
  unfolding by_hash
  by_hash-found h [] there = cc
  by_hash-found h (r ∷ rs) there = elim (Option-cases (by_hash rs h)) [
    | inr (p, later) ↦ rw (later, by_hash) (λ e. cc)
    | inl gone ↦ elim (Bool-cases (str_eq h r.name_hash)) [
      | inl same ↦ rw (gone, by_hash, same) (λ e. cc)
      | inr other ↦ absurd (by_hash-found h rs (rw other at there) gone)
    ]
  ]

-- If validateResponse accepts a response, then for the hash of every candidate `byHash` holds an item of the
-- response with that hash, an id that is not 0, the candidate's provider, and for Google a token and a folder.
pub validate_response-Answers :
    (items : List PreparedCandidate) (response : List ResponseItem) (h : String)
    → validate_response items response ≡ ok tt
    → has (hashes_of items) h ≡ true
    → (r : ResponseItem) × (by_hash response h ≡ some r) × Answers items h r
unfolding validate_response
validate_response-Answers items response h accepted there =
    let sized : (length response == length items) ≡ true = ground arith in
    let checked : check_items items [] [] response ≡ ok tt = rw sized at accepted in
    elim (Bool-cases (has (response_hashes response) h)) [
      | inr missing ↦
          let few =
            items-le-free items h response [] (remove h (hashes_of items)) []
              (λ k in_items unseen apart. has-remove h k (hashes_of items) in_items apart) missing
              checked in
          absurd (
            omega (
              arith,
              few,
              length-remove h (hashes_of items) there,
              length-hashes_of items,
              (==_iff (length response) (length items)).0 sized,
            ))
      | inl answered ↦ elim (Option-cases (by_hash response h)) [
        | inl gone ↦ absurd (by_hash-found items h response answered gone)
        | inr (r, found) ↦ (r, found, by_hash-accepted items h response [] [] r checked found)
      ]
    ]
  where
    length-hashes_of : (is : List PreparedCandidate) → length (hashes_of is) ≡ length is
    length-hashes_of [] = refl
    length-hashes_of (i ∷ is) = ap suc (length-hashes_of is)
