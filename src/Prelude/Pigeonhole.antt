-- ===== src/Prelude/Pigeonhole.antt =====
-- Distinct elements of a list are at most as many as it has.
use Prim.Native.Nat.{suc, ◌≤◌}
use mathlib.Core.Path.{◌≡◌, refl, sym, ap, ◌∙◌}
use mathlib.Core.Logic.{◌↔◌, ◌⊎◌, inl, inr}
use mathlib.Core.Bool.{Bool, true, false}
use mathlib.Core.List.{List, [], ◌∷◌}
use native.Mathlib.Omega.{arith}
use save_box.Prelude.Tests.{if◌then◌else◌, Bool-cases}
use save_box.Prelude.Lists.{length}
use save_box.Prelude.Select.{any_of}

module _ {A : Type 0} (same : A → A → Bool) where
  abbrev pub member : List A → A → Bool
  member xs y = any_of (same y) xs

  abbrev pub IsDistinct : List A → Type 0
  IsDistinct [] = Unit
  IsDistinct (x ∷ xs) = (member xs x ≡ false) × IsDistinct xs

  -- The elements of the set that is made of a list.
  abbrev pub set_of : List A → List A
  set_of [] = []
  set_of (x ∷ xs) = let rest = set_of xs in if member rest x then rest else x ∷ rest

  pub set_of-IsDistinct : (xs : List A) → IsDistinct (set_of xs)
  set_of-IsDistinct [] = tt
  set_of-IsDistinct (x ∷ xs) = elim (Bool-cases (member (set_of xs) x)) [
    | inl there ↦ rw there (set_of-IsDistinct xs)
    | inr fresh ↦ rw fresh (fresh, set_of-IsDistinct xs)
  ]

  without : A → List A → List A
  without y [] = []
  without y (x ∷ xs) = let rest = x ∷ without y xs in if same y x then xs else rest

  module _ (same_iff : (x y : A) → (same x y ≡ true) ↔ (x ≡ y)) where
    pub member-cons :
        (x z : A) (xs : List A) → member (x ∷ xs) z ≡ true → (z ≡ x) ⊎ (member xs z ≡ true)
    member-cons x z xs there = elim (Bool-cases (same z x)) [
      | inl here ↦ inl ((same_iff z x).0 here)
      | inr away ↦ inr (rw away at there)
    ]

    -- An element that no other one is.
    pub member_none :
        (x : A) (xs : List A)
        → ((z : A) → member xs z ≡ true → same z x ≡ false)
        → member xs x ≡ false
    member_none x xs apart = elim (Bool-cases (member xs x)) [
      | inr missing ↦ missing
      | inl there ↦ cc (apart x there, (same_iff x x).1 refl)
    ]

    pub member-cons_none :
        (x z : A) (xs : List A)
        → member (x ∷ xs) z ≡ false
        → (same z x ≡ false) × (member xs z ≡ false)
    member-cons_none x z xs missing = elim (Bool-cases (same z x)) [
      | inl here ↦ cc (rw here at missing)
      | inr away ↦ (away, rw away at missing)
    ]

    pub member-set_of : (xs : List A) (y : A) → member (set_of xs) y ≡ member xs y
    member-set_of [] y = refl
    member-set_of (x ∷ xs) y = elim (Bool-cases (member (set_of xs) x)) [
      | inr fresh ↦ rw fresh (ap (λ (b : Bool). if same y x then true else b) (member-set_of xs y))
      | inl there ↦ rw there (elim (Bool-cases (same y x)) [
        | inr away ↦ rw away (member-set_of xs y)
        | inl here ↦ let at : y ≡ x = (same_iff y x).0 here in rw (here, at) there
      ])
    ]

    length-set_of_le : (xs : List A) → length (set_of xs) ≤ length xs
    length-set_of_le [] = omega arith
    length-set_of_le (x ∷ xs) = elim (Bool-cases (member (set_of xs) x)) [
      | inl there ↦ rw there (omega (arith, length-set_of_le xs))
      | inr fresh ↦ rw fresh (omega (arith, length-set_of_le xs))
    ]

    -- A list that is as long as its set has each element once.
    pub length-set_of-IsDistinct : (xs : List A) → length (set_of xs) ≡ length xs → IsDistinct xs
    length-set_of-IsDistinct [] whole = tt
    length-set_of-IsDistinct (x ∷ xs) whole = elim (Bool-cases (member (set_of xs) x)) [
      | inl there ↦ absurd (omega (arith, rw there at whole, length-set_of_le xs))
      | inr fresh ↦ (
        sym (member-set_of xs x) ∙ fresh,
        length-set_of-IsDistinct xs (omega (arith, rw fresh at whole)),
      )
    ]

    pub set_of-distinct : (xs : List A) → IsDistinct xs → set_of xs ≡ xs
    set_of-distinct [] distinct = refl
    set_of-distinct (x ∷ xs) (fresh, distinct) =
        let rest : set_of xs ≡ xs = set_of-distinct xs distinct in rw (rest, fresh) refl

    length-without :
        (y : A) (xs : List A) → member xs y ≡ true → suc (length (without y xs)) ≡ length xs
    unfolding without
    length-without y [] there = cc
    length-without y (x ∷ xs) there = elim (Bool-cases (same y x)) [
      | inl here ↦ rw here refl
      | inr away ↦ rw away (ap suc (length-without y xs (rw away at there)))
    ]

    member-without :
        (y z : A) (xs : List A)
        → member xs z ≡ true
        → same z y ≡ false
        → member (without y xs) z ≡ true
    unfolding without
    member-without y z [] there apart = cc
    member-without y z (x ∷ xs) there apart = elim (Bool-cases (same y x)) [
      | inl here ↦
          let at : y ≡ x = (same_iff y x).0 here in
          let away : same z x ≡ false = rw at at apart in rw here (rw away at there)
      | inr other ↦ elim (Bool-cases (same z x)) [
        | inl found ↦ rw (other, found) refl
        | inr further ↦ rw (other, further) (member-without y z xs (rw further at there) apart)
      ]
    ]

    pub apart_of_member :
        (xs : List A) (x z : A) → member xs x ≡ false → member xs z ≡ true → same z x ≡ false
    apart_of_member xs x z fresh there = elim (Bool-cases (same z x)) [
      | inr apart ↦ apart
      | inl equal ↦ let at : z ≡ x = (same_iff z x).0 equal in cc
    ]

    pub length-distinct-le :
        (xs ys : List A)
        → IsDistinct xs
        → ((z : A) → member xs z ≡ true → member ys z ≡ true)
        → length xs ≤ length ys
    length-distinct-le [] ys distinct within = omega arith
    length-distinct-le (x ∷ xs) ys (fresh, distinct) within =
        let self : same x x ≡ true = (same_iff x x).1 refl in
        let there : member ys x ≡ true = within x (rw self refl) in
        let below = length-distinct-le xs (without x ys) distinct (λ z inside.
          member-without x z ys (within z (tail z inside)) (apart_of_member xs x z fresh inside)) in
        omega (arith, below, length-without x ys there)
      where
        tail : (z : A) → member xs z ≡ true → member (x ∷ xs) z ≡ true
        tail z inside = elim (Bool-cases (same z x)) [ inl h ↦ rw h refl | inr h ↦ rw h inside ]

    -- As many distinct elements as the list has leave none of it out.
    pub distinct-member :
        (xs ys : List A) (y : A)
        → IsDistinct xs
        → ((z : A) → member xs z ≡ true → member ys z ≡ true)
        → length ys ≤ length xs
        → member ys y ≡ true
        → member xs y ≡ true
    distinct-member xs ys y distinct within enough there = elim (Bool-cases (member xs y)) [
      | inl found ↦ found
      | inr missing ↦
          let below = length-distinct-le xs (without y ys) distinct (λ z inside.
            member-without y z ys (within z inside) (apart_of_member xs y z missing inside)) in
          absurd (omega (arith, below, enough, length-without y ys there))
    ]
