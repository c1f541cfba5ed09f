-- ===== src/Prelude/Select.antt =====
-- Choosing from a list by a test.
use Prim.Native.Nat.{ℕ, ◌+◌, ◌≤◌}
use mathlib.Core.Path.{◌≡◌, refl}
use mathlib.Core.Logic.{◌⊎◌, inl, inr}
use mathlib.Core.Bool.{Bool, true, false}
use mathlib.Core.List.{List, [], ◌∷◌, ◌++◌}
use mathlib.Core.Option.{Option, none, some}
use native.Mathlib.Omega.{arith}
use save_box.Prelude.Tests.{if◌then◌else◌, Bool-cases}
use save_box.Prelude.Lists.{length}

abbrev pub In : {A : Type 0} → A → List A → Type 0
In x [] = ⊥
In x (y ∷ ys) = (x ≡ y) ⊎ In x ys

module _ {ℓ} {A : Type ℓ} (test : A → Bool) where
  abbrev pub select : List A → List A
  select [] = []
  select (x ∷ xs) = let rest = select xs in if test x then x ∷ rest else rest

  -- The first that passes.
  abbrev pub find_first : List A → Option A
  find_first [] = none
  find_first (x ∷ xs) = let rest = find_first xs in if test x then some x else rest

  abbrev pub any_of : List A → Bool
  any_of [] = false
  any_of (x ∷ xs) = if test x then true else any_of xs

  abbrev pub count : List A → ℕ
  count [] = 0
  count (x ∷ xs) = (if test x then 1 else 0) + count xs

  pub count-append : (xs ys : List A) → count (xs ++ ys) ≡ count xs + count ys
  count-append [] ys = omega arith
  count-append (x ∷ xs) ys = omega (arith, count-append xs ys)

  pub count-le-length : (xs : List A) → count xs ≤ length xs
  count-le-length [] = omega arith
  count-le-length (x ∷ xs) = elim (Bool-cases (test x)) [
    | inl passes ↦ rw passes (omega (arith, count-le-length xs))
    | inr fails ↦ rw fails (omega (arith, count-le-length xs))
  ]

  pub length-select : (xs : List A) → length (select xs) ≡ count xs
  length-select [] = refl
  length-select (x ∷ xs) = elim (Bool-cases (test x)) [
    | inl passes ↦ rw passes (omega (arith, length-select xs))
    | inr fails ↦ rw fails (omega (arith, length-select xs))
  ]

module _ {A : Type 0} (test : A → Bool) where
  pub select-In : (xs : List A) (x : A) → In x (select test xs) → In x xs × (test x ≡ true)
  select-In [] x h = absurd h
  select-In (y ∷ xs) x h = elim (Bool-cases (test y)) [
    | inr fails ↦ let (inside, passes) = select-In xs x (rw fails at h) in (inr inside, passes)
    | inl found ↦ elim (kept found) [
      | inl here ↦ (inl here, rw here found)
      | inr there ↦ let (inside, passes) = select-In xs x there in (inr inside, passes)
    ]
  ]
    where
      kept : test y ≡ true → (x ≡ y) ⊎ In x (select test xs)
      kept found = rw found at h

  pub In-select : (xs : List A) (x : A) → In x xs → test x ≡ true → In x (select test xs)
  In-select [] x h passes = absurd h
  In-select (y ∷ xs) x (inl here) passes =
      let found : test y ≡ true = rw here at passes in rw found (inl here)
  In-select (y ∷ xs) x (inr there) passes = elim (Bool-cases (test y)) [
    | inl found ↦ rw found (inr (In-select xs x there passes))
    | inr fails ↦ rw fails (In-select xs x there passes)
  ]
