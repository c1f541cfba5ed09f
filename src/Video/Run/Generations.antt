-- ===== src/Video/Run/Generations.antt =====
-- The pipelines of a generation, counted.
use save_box.Prelude.{
  ℕ, suc, ◌+◌, ◌≤◌, ◌≡◌, refl, sym, ◌∙◌, Bool, true, false, List, [], ◌∷◌, ◌++◌, arith, count,
  count-append, ◌==◌, ==_iff,
}
use save_box.Video.{Pipeline}

abbrev pub is_of : ℕ → Pipeline → Bool
is_of generation p = generation == p.captured_generation

abbrev pub AllUpTo : ℕ → List Pipeline → Type 0
AllUpTo generation [] = Unit
AllUpTo generation (p ∷ ps) = (p.captured_generation ≤ generation) × AllUpTo generation ps

pub AllUpTo-append :
    (g : ℕ) (xs ys : List Pipeline) → AllUpTo g xs → AllUpTo g ys → AllUpTo g (xs ++ ys)
AllUpTo-append g [] ys h h' = h'
AllUpTo-append g (x ∷ xs) ys (first, later) h' = (first, AllUpTo-append g xs ys later h')

pub AllUpTo-without :
    (g : ℕ) (before after : List Pipeline) (p : Pipeline)
    → AllUpTo g (before ++ p ∷ after)
    → AllUpTo g (before ++ after)
AllUpTo-without g [] after p (first, later) = later
AllUpTo-without g (x ∷ before) after p (first, later) =
    (first, AllUpTo-without g before after p later)

pub count-is_of_next : (g : ℕ) (ps : List Pipeline) → AllUpTo g ps → count (is_of (g + 1)) ps ≡ 0
count-is_of_next g [] h = refl
count-is_of_next g (p ∷ ps) (first, later) = let rest = count-is_of_next g ps later in ground arith

pub AllUpTo-next : (g : ℕ) (ps : List Pipeline) → AllUpTo g ps → AllUpTo (g + 1) ps
AllUpTo-next g [] h = tt
AllUpTo-next g (p ∷ ps) (first, later) = (omega arith, AllUpTo-next g ps later)

pub count-is_of_last :
    (g : ℕ) (ps : List Pipeline) (p : Pipeline)
    → p.captured_generation ≡ g
    → count (is_of g) (ps ++ p ∷ []) ≡ count (is_of g) ps + 1
count-is_of_last g ps p own =
    let split = count-append (is_of g) ps (p ∷ []) in
    let passes : is_of g p ≡ true = (==_iff _ _).1 (sym own) in split ∙ (rw passes refl)

-- A pipeline that leaves the list, of this generation or another.
pub count-is_of_own :
    (g : ℕ) (before after : List Pipeline) (p : Pipeline)
    → is_of g p ≡ true
    → count (is_of g) (before ++ p ∷ after) ≡ suc (count (is_of g) (before ++ after))
count-is_of_own g before after p passes =
    let with_it = count-append (is_of g) before (p ∷ after) in
    let without_it = count-append (is_of g) before after in
    let one : count (is_of g) (p ∷ after) ≡ 1 + count (is_of g) after = rw passes refl in
    omega (arith, with_it, without_it, one)

pub count-is_of_other :
    (g : ℕ) (before after : List Pipeline) (p : Pipeline)
    → is_of g p ≡ false
    → count (is_of g) (before ++ p ∷ after) ≡ count (is_of g) (before ++ after)
count-is_of_other g before after p fails =
    let with_it = count-append (is_of g) before (p ∷ after) in
    let without_it = count-append (is_of g) before after in
    let nothing : count (is_of g) (p ∷ after) ≡ count (is_of g) after = rw fails (omega arith) in
    omega (arith, with_it, without_it, nothing)
