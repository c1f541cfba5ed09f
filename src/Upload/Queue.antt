-- ===== src/Upload/Queue.antt =====
-- UploadQueue (frontend/src/app/features/drive/upload/upload-queue.ts). The workers that `run` starts take
-- the next task whenever one of theirs ends, and end with a task that rejects; which ends first is given by
-- `picks`, and which reject by `rejects`.
use save_box.Prelude.{
  count, count-append, ℕ, zero, suc, ◌+◌, ◌≤◌, ◌<◌, ◌≡◌, refl, sym, ap, ◌∙◌, Bool, List, [], ◌∷◌,
  ◌++◌, arith, length, take, drop, length-take, length-drop, Bool-cases, ◌⊎◌, inl, inr,
  if◌then◌else◌, length-append, take-append-drop,
}

module _ {ℓ} {A : Type ℓ} where
  -- The task that ends and those that go on; the last one if there are not so many.
  unfoldable pub pick : ℕ → A → List A → A × List A
  pick i x [] = (x, [])
  pick zero x (y ∷ xs) = (x, y ∷ xs)
  pick (suc i) x (y ∷ xs) = let (done, rest) = pick i y xs in (done, x ∷ rest)

  -- The tasks in the order in which they end, by rejection too: those that run, and those that wait.
  -- The worker of a task that rejects takes no other.
  unfoldable pub rounds : (A → Bool) → (ℕ → ℕ) → ℕ → List A → List A → List A
  unfolding pick
  rounds rejects picks zero active waiting = []
  rounds rejects picks (suc fuel) [] waiting = []
  rounds rejects picks (suc fuel) (x ∷ active) waiting =
      let (done, rest) = pick (picks fuel) x active in
      let taken = if rejects done then 0 else 1 in
      done ∷ rounds rejects picks fuel (rest ++ take taken waiting) (drop taken waiting)

  unfoldable pub run : (A → Bool) → ℕ → (ℕ → ℕ) → List A → List A
  unfolding rounds
  run rejects concurrency picks tasks =
      rounds rejects picks (length tasks) (take concurrency tasks) (drop concurrency tasks)

  -- The tasks of two queues that run side by side: from which the next one to end comes.
  unfoldable pub interleave : (ℕ → Bool) → ℕ → List A → List A → List A
  interleave turns zero xs ys = []
  interleave turns (suc fuel) [] ys = ys
  interleave turns (suc fuel) (x ∷ xs) [] = x ∷ xs
  interleave turns (suc fuel) (x ∷ xs) (y ∷ ys) =
      let left = interleave turns fuel xs (y ∷ ys) in
      let right = interleave turns fuel (x ∷ xs) ys in if turns fuel then x ∷ left else y ∷ right

module _ {ℓ} {A : Type ℓ} (test : A → Bool) where
  count-pick :
      (i : ℕ) (x : A) (xs : List A)
      → count test ((pick i x xs).0 ∷ (pick i x xs).1) ≡ count test (x ∷ xs)
  unfolding pick
  count-pick i x [] = refl
  count-pick zero x (y ∷ xs) = refl
  count-pick (suc i) x (y ∷ xs) = omega (arith, count-pick i y xs)

  pub count-take-drop :
      (n : ℕ) (xs : List A) → count test (take n xs) + count test (drop n xs) ≡ count test xs
  count-take-drop n xs =
      sym (count-append test (take n xs) (drop n xs)) ∙ ap (count test) (take-append-drop n xs)

length-pick {ℓ} : {A : Type ℓ} (i : ℕ) (x : A) (xs : List A) → length (pick i x xs).1 ≡ length xs
unfolding pick
length-pick i x [] = refl
length-pick zero x (y ∷ xs) = refl
length-pick (suc i) x (y ∷ xs) = ap suc (length-pick i y xs)

-- A queue with more workers than tasks that reject ends each of its tasks once.
module _ {ℓ} {A : Type ℓ} (test rejects : A → Bool) (picks : ℕ → ℕ) where
  count-rounds :
      (fuel : ℕ) (active waiting : List A)
      → length active + length waiting ≤ fuel
      → (length waiting ≡ 0) ⊎ (count rejects active + count rejects waiting < length active)
      → count test (rounds rejects picks fuel active waiting)
        ≡ count test active + count test waiting
  unfolding rounds
  count-rounds zero [] [] enough busy = refl
  count-rounds zero [] (y ∷ ys) enough busy = absurd (omega arith)
  count-rounds zero (x ∷ xs) ys enough busy = absurd (omega arith)
  count-rounds (suc fuel) [] [] enough busy = refl
  count-rounds (suc fuel) [] (y ∷ ys) enough busy = absurd (ground arith)
  count-rounds (suc fuel) (x ∷ xs) waiting enough busy =
      let (done, rest) = pick (picks fuel) x xs in
      let size = length-pick (picks fuel) x xs in
      let kept = count-pick test (picks fuel) x xs in
      let broken = count-pick rejects (picks fuel) x xs in
      let taken = if rejects done then 0 else 1 in
      let front = count-append test rest (take taken waiting) in
      let front' = count-append rejects rest (take taken waiting) in
      let all = count-take-drop test taken waiting in
      let all' = count-take-drop rejects taken waiting in
      let wide = length-append rest (take taken waiting) in
      let inside = length-take taken waiting in
      let behind = length-drop taken waiting in
      let still : (length (drop taken waiting) ≡ 0)
          ⊎ (count rejects (rest ++ take taken waiting) + count rejects (drop taken waiting)
              < length (rest ++ take taken waiting)) =
        elim (Bool-cases (rejects done)) [
          | inl stopped ↦ let none_taken : taken ≡ 0 = rw stopped refl in ground arith
          | inr goes_on ↦ let one_taken : taken ≡ 1 = rw goes_on refl in ground arith
        ] in
      omega (
        arith,
        count-rounds fuel (rest ++ take taken waiting) (drop taken waiting) (omega arith) still,
        front,
        all,
        kept,
      )

-- If fewer tasks reject than there are workers, then, whatever the order in which tasks end, each task
-- ends once: of every kind of task as many end as were given.
pub count-run {ℓ} :
    {A : Type ℓ} (test rejects : A → Bool) (picks : ℕ → ℕ) (concurrency : ℕ) (tasks : List A)
    → count rejects tasks < concurrency
    → count test (run rejects concurrency picks tasks) ≡ count test tasks
unfolding run
count-run test rejects picks c tasks fewer =
    let split = count-take-drop rejects c tasks in
    let front = length-take c tasks in
    let back = length-drop c tasks in
    let busy : (length (drop c tasks) ≡ 0)
        ⊎ (count rejects (take c tasks) + count rejects (drop c tasks) < length (take c tasks)) =
      ground arith in
    count-rounds test rejects picks (length tasks) (take c tasks) (drop c tasks) (omega arith) busy
    ∙ count-take-drop test c tasks

pub count-interleave {ℓ} :
    {A : Type ℓ} (test : A → Bool) (turns : ℕ → Bool) (fuel : ℕ) (xs ys : List A)
    → length xs + length ys ≤ fuel
    → count test (interleave turns fuel xs ys) ≡ count test xs + count test ys
unfolding interleave
count-interleave test turns zero [] [] h = refl
count-interleave test turns zero [] (y ∷ ys) h = absurd (omega arith)
count-interleave test turns zero (x ∷ xs) ys h = absurd (omega arith)
count-interleave test turns (suc fuel) [] ys h = omega arith
count-interleave test turns (suc fuel) (x ∷ xs) [] h = omega arith
count-interleave test turns (suc fuel) (x ∷ xs) (y ∷ ys) h = elim (Bool-cases (turns fuel)) [
  | inl first ↦ rw first (omega (arith, count-interleave test turns fuel xs (y ∷ ys) (omega arith)))
  | inr second ↦
      rw second (omega (arith, count-interleave test turns fuel (x ∷ xs) ys (omega arith)))
]
