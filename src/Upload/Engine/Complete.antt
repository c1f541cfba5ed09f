-- ===== src/Upload/Engine/Complete.antt =====
-- What the server holds after a run of uploadLocal, and after a run that resumes one.
use save_box.Prelude.{
  ℕ, zero, suc, ◌+◌, ◌-◌, ◌*◌, ◌≤◌, ◌<◌, min, ◌≡◌, ◌≢◌, refl, sym, ap, ◌∙◌, ◌⊎◌, Bool, true, false,
  inl, inr, Option, some, none, List, [], ◌∷◌, ◌++◌, arith, append-nil, ok, length, drop, ◌==◌,
  ==_iff, if◌then◌else◌, Bool-cases, Option-cases, take-append-drop, ltb, ltb→lt, ltb→le, drop-drop,
  drop_all, take_all, length-drop,
}
use save_box.Prelude.Words.{Bytes}
use save_box.Upload.Engine.{
  chunk_size, total_chunks, chunk_at, includes, upload_rounds, upload_local, reported_chunks,
}

-- The chunks that the server holds, and their indices.
abbrev pub Held : Type 0
Held = List (ℕ × Bytes)

abbrev pub indices : Held → List ℕ
indices [] = []
indices (h ∷ held) = h.0 ∷ indices held

abbrev pub fetch : Held → ℕ → Option Bytes
fetch [] i = none
fetch (h ∷ held) i = if i == h.0 then some h.1 else fetch held i

abbrev joined : Option Bytes → Option Bytes → Option Bytes
joined (some a) (some b) = some (a ++ b)
joined _ _ = none

-- The chunks from `i` on, one after the other.
unfoldable pub fetch_all : Held → ℕ → ℕ → Option Bytes
fetch_all held zero i = some []
fetch_all held (suc left) i = joined (fetch held i) (fetch_all held left (i + 1))

-- Every chunk is the one that belongs at its index.
abbrev pub IsPartOf : Bytes → Held → Type 0
IsPartOf blob [] = Unit
IsPartOf blob (h ∷ held) = (h.1 ≡ chunk_at blob h.0) × IsPartOf blob held

-- No chunk is one that had been reported.
abbrev pub IsNew : List ℕ → Held → Type 0
IsNew uploaded [] = Unit
IsNew uploaded (h ∷ held) = (includes uploaded h.0 ≡ false) × IsNew uploaded held

module _ (blob : Bytes) where
  IsPartOf-append : (a b : Held) → IsPartOf blob a → IsPartOf blob b → IsPartOf blob (a ++ b)
  IsPartOf-append [] b p q = q
  IsPartOf-append (h ∷ a) b p q = (p.0, IsPartOf-append a b p.1 q)

  fetch-IsPartOf :
      (held : Held) (i : ℕ)
      → IsPartOf blob held
      → includes (indices held) i ≡ true
      → fetch held i ≡ some (chunk_at blob i)
  fetch-IsPartOf [] i p h = cc
  fetch-IsPartOf (g ∷ held) i p h = elim (Bool-cases (i == g.0)) [
    | inl here ↦
        let at : i ≡ g.0 = (==_iff i g.0).0 here in
        rw here (ap some p.0 ∙ ap (λ (k : ℕ). some (chunk_at blob k)) (sym at))
    | inr there ↦ rw there (fetch-IsPartOf held i p.1 (rw there at h))
  ]

  includes-append :
      (a b : Held) (i : ℕ)
      → (includes (indices a) i ≡ true) ⊎ (includes (indices b) i ≡ true)
      → includes (indices (a ++ b)) i ≡ true
  includes-append [] b i (inl h) = cc
  includes-append [] b i (inr h) = h
  includes-append (g ∷ a) b i h = elim (Bool-cases (i == g.0)) [
    | inl here ↦ rw here refl
    | inr there ↦ rw there (includes-append a b i (rw there at h))
  ]

  -- The chunks of the blob, one after the other, are the blob.
  chunk_at-drop :
      (i : ℕ) → chunk_at blob i ++ drop ((i + 1) * chunk_size) blob ≡ drop (i * chunk_size) blob
  chunk_at-drop i =
      let rest = drop (i * chunk_size) blob in
      let behind : drop chunk_size rest ≡ drop ((i + 1) * chunk_size) blob =
        drop-drop (i * chunk_size) chunk_size blob ∙ ap (λ (k : ℕ). drop k blob) (omega arith) in
      let size = length-drop (i * chunk_size) blob in
      elim (Bool-cases (ltb (length rest) chunk_size)) [
        | inl last ↦
            let short = ltb→lt _ _ last in
            rw
              (
                drop_all ((i + 1) * chunk_size) blob (omega arith),
                take_all (min (i * chunk_size + chunk_size) (length blob) - i * chunk_size) rest
                    (omega arith),
              )
              (append-nil rest)
        | inr more ↦
            let long = ltb→le _ _ more in
            let width : min (i * chunk_size + chunk_size) (length blob) - i * chunk_size
                ≡ chunk_size =
              omega arith in
            rw (width, ← behind) (take-append-drop chunk_size rest)
      ]

  module _ (held : Held) (part : IsPartOf blob held) where
    fetch_all-drop :
        (left i : ℕ)
        → ((j : ℕ) → i ≤ j → j < i + left → includes (indices held) j ≡ true)
        → length blob ≤ (i + left) * chunk_size
        → fetch_all held left i ≡ some (drop (i * chunk_size) blob)
    unfolding fetch_all
    fetch_all-drop zero i all long = ap some (sym (drop_all (i * chunk_size) blob (omega arith)))
    fetch_all-drop (suc left) i all long =
        rw
          (
            fetch-IsPartOf held i part (all i (omega arith) (omega arith)),
            fetch_all-drop left (i + 1) (λ j low high. all j (omega arith) (omega arith))
                (omega arith),
          )
          (ap some (chunk_at-drop i))

module _ (blob : Bytes) (total : ℕ) (uploaded : List ℕ) (stops : ℕ → Bool)
    (fails : ℕ → Option ℕ) where
  upload_rounds-IsPartOf :
      (left i : ℕ)
      → IsPartOf blob (upload_rounds blob total uploaded stops fails left i).sent
        × IsNew uploaded (upload_rounds blob total uploaded stops fails left i).sent
  unfolding upload_rounds
  upload_rounds-IsPartOf zero i = (tt, tt)
  upload_rounds-IsPartOf (suc left) i =
      let (part, fresh) = upload_rounds-IsPartOf left (i + 1) in
      elim (Bool-cases (stops i)) [
        | inl stop ↦ rw stop (tt, tt)
        | inr go ↦ elim (Bool-cases (includes uploaded i)) [
          | inl known ↦ rw (go, known) (part, fresh)
          | inr new ↦ elim (Option-cases (fails i)) [
            | inl sent ↦ rw (go, new, sent) ((refl, part), (new, fresh))
            | inr (status, failed) ↦ rw (go, new, failed) ((refl, tt), (new, tt))
          ]
        ]
      ]

  upload_rounds-all :
      (left i : ℕ)
      → (upload_rounds blob total uploaded stops fails left i).result ≡ ok false
      → (j : ℕ) → i ≤ j
      → j < i + left
      → (includes uploaded j ≡ true)
        ⊎ (includes (indices (upload_rounds blob total uploaded stops fails left i).sent) j ≡ true)
  unfolding upload_rounds
  upload_rounds-all zero i done j low high = absurd (omega arith)
  upload_rounds-all (suc left) i done j low high = elim (Bool-cases (stops i)) [
    | inl stop ↦ cc (rw stop at done)
    | inr go ↦ elim (Bool-cases (includes uploaded i)) [
      | inl known ↦ elim (Bool-cases (j == i)) [
        | inl here ↦ let at : j ≡ i = (==_iff j i).0 here in inl (ap (includes uploaded) at ∙ known)
        | inr there ↦
            let past : j ≢ i = ground arith in
            rw (go, known)
              (upload_rounds-all left (i + 1) (rw (go, known) at done) j (omega arith)
                (omega arith))
      ]
      | inr new ↦ elim (Option-cases (fails i)) [
        | inl sent ↦ elim (Bool-cases (j == i)) [
          | inl here ↦ inr (rw (go, new, sent, here) refl)
          | inr there ↦
              let past : j ≢ i = ground arith in
              rw (go, new, sent, there)
                (upload_rounds-all left (i + 1) (rw (go, new, sent) at done) j (omega arith)
                  (omega arith))
        ]
        | inr (status, failed) ↦ cc (rw (go, new, failed) at done)
      ]
    ]
  ]

  upload_rounds-runs :
      (left i : ℕ)
      → ((j : ℕ) → stops j ≡ false)
      → ((j : ℕ) → fails j ≡ none)
      → (upload_rounds blob total uploaded stops fails left i).result ≡ ok false
  unfolding upload_rounds
  upload_rounds-runs zero i go sent = refl
  upload_rounds-runs (suc left) i go sent = elim (Bool-cases (includes uploaded i)) [
    | inl known ↦ rw (go i, known) (upload_rounds-runs left (i + 1) go sent)
    | inr new ↦ rw (go i, new, sent i) (upload_rounds-runs left (i + 1) go sent)
  ]

  -- Every round that ends reports its progress.
  upload_rounds-updates :
      (left i : ℕ)
      → (upload_rounds blob total uploaded stops fails left i).result ≡ ok false
      → length (upload_rounds blob total uploaded stops fails left i).updates ≡ left
  unfolding upload_rounds
  upload_rounds-updates zero i done = refl
  upload_rounds-updates (suc left) i done = elim (Bool-cases (stops i)) [
    | inl stop ↦ cc (rw stop at done)
    | inr go ↦ elim (Bool-cases (includes uploaded i)) [
      | inl known ↦
          rw (go, known) (ap suc (upload_rounds-updates left (i + 1) (rw (go, known) at done)))
      | inr new ↦ elim (Option-cases (fails i)) [
        | inl sent ↦
            rw (go, new, sent)
              (ap suc (upload_rounds-updates left (i + 1) (rw (go, new, sent) at done)))
        | inr (status, failed) ↦ cc (rw (go, new, failed) at done)
      ]
    ]
  ]

-- However a run ends, each chunk that it sent is the one of the blob at its index, and none of them
-- is one that the server had reported.
pub upload_local-IsPartOf :
    (blob : Bytes) (total : ℕ) (uploaded : List ℕ) (stops : ℕ → Bool) (fails : ℕ → Option ℕ)
    → IsPartOf blob (upload_local blob total (some uploaded) stops fails).sent
      × IsNew uploaded (upload_local blob total (some uploaded) stops fails).sent
unfolding upload_local
upload_local-IsPartOf blob total uploaded stops fails =
    upload_rounds-IsPartOf blob total uploaded stops fails total 0

-- If the server holds chunks of the blob and reports all of them, a run over all the chunks that is
-- not paused and does not fail leaves it with the whole blob, whatever earlier runs had sent.
pub fetch_all-upload_local :
    (blob : Bytes) (held : Held) (stops : ℕ → Bool) (fails : ℕ → Option ℕ)
    → IsPartOf blob held
    → (upload_local blob (total_chunks blob) (some (indices held)) stops fails).result ≡ ok false
    → fetch_all
        (held ++ (upload_local blob (total_chunks blob) (some (indices held)) stops fails).sent)
        (total_chunks blob)
        0
      ≡ some blob
unfolding upload_local
fetch_all-upload_local blob held stops fails part done =
    let total = total_chunks blob in
    let run = upload_rounds blob total (indices held) stops fails total 0 in
    fetch_all-drop blob (held ++ run.sent)
      (IsPartOf-append blob held run.sent part
        (upload_rounds-IsPartOf blob total (indices held) stops fails total 0).0)
      total 0
      (λ j low high.
        includes-append blob held run.sent j
          (upload_rounds-all blob total (indices held) stops fails total 0 done j low high))
      (omega arith)

-- A run that no control stops and in which no request fails is not paused, and reports its progress
-- once for each chunk.
pub upload_local-runs :
    (blob : Bytes) (total : ℕ) (reply : Option (List ℕ)) (stops : ℕ → Bool) (fails : ℕ → Option ℕ)
    → ((i : ℕ) → stops i ≡ false)
    → ((i : ℕ) → fails i ≡ none)
    → ((upload_local blob total reply stops fails).result ≡ ok false)
      × (length (upload_local blob total reply stops fails).updates ≡ total)
unfolding upload_local
upload_local-runs blob total reply stops fails go sent =
    let done = upload_rounds-runs blob total (reported_chunks reply) stops fails total 0 go sent in
    (done, upload_rounds-updates blob total (reported_chunks reply) stops fails total 0 done)
