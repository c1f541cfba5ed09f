-- ===== src/Drive/Files/Listing.antt =====
-- The path to the current folder, and what the trash shows.
use save_box.Prelude.{
  ℕ, zero, suc, ◌+◌, ◌≤◌, ◌<◌, ◌≡◌, refl, ap, ◌∙◌, ◌⊎◌, inl, inr, Bool, true, false, not, ◌&&◌,
  Option, some, none, List, [], ◌∷◌, ◌++◌, arith, Bool-cases, Option-cases, In, In-select, ==_iff,
}
use save_box.Drive.Files.{
  DriveFile, place_of, same_folder, is_trash_folder, is_trash_root, current_trash_folder_files,
  folder_at, ancestors,
}

-- If every folder has a parent of lower rank, then the loop for the path of a folder ends, with as much fuel
-- as its rank and two more.
pub ancestors-ends :
    (files : List DriveFile) (rank : ℕ → ℕ) (id : ℕ)
    → ((i j : ℕ) (f : DriveFile)
        → folder_at files i ≡ some f
        → f.parent_id ≡ some j
        → rank j < rank i)
    → (path : List DriveFile) × (ancestors files (rank id + 2) (some id) ≡ some path)
unfolding ancestors
ancestors-ends files rank id lower = go (rank id + 2) id (omega arith)
  where
    last_step :
        (fuel : ℕ) (f : DriveFile) (o : Option ℕ)
        → o ≡ none
        → 0 < fuel
        → elim (ancestors files fuel o) [ none ↦ none | some above ↦ some (above ++ f ∷ []) ]
          ≡ some (f ∷ [])
    last_step zero f o top some_fuel = absurd (omega arith)
    last_step (suc fuel) f o top some_fuel = rw top refl

    step :
        (fuel : ℕ) (f : DriveFile) (o : Option ℕ) (path : List DriveFile)
        → ancestors files fuel o ≡ some path
        → elim (ancestors files fuel o) [ none ↦ none | some above ↦ some (above ++ f ∷ []) ]
          ≡ some (path ++ f ∷ [])
    step fuel f o path walked = rw walked refl

    go :
        (fuel i : ℕ)
        → rank i + 2 ≤ fuel
        → (path : List DriveFile) × (ancestors files fuel (some i) ≡ some path)
    go zero i enough = absurd (omega arith)
    go (suc fuel) i enough = elim (Option-cases (folder_at files i)) [
      | inl missing ↦ ([], rw (missing, ancestors) refl)
      | inr (f, found) ↦ elim (Option-cases f.parent_id) [
        | inl top ↦ (f ∷ [], rw (found, ancestors) (last_step fuel f f.parent_id top (omega arith)))
        | inr (j, above) ↦
            let (path, walked) = go fuel j (omega (arith, lower i j f found above, enough)) in
            (
              path ++ f ∷ [],
              rw (found, ancestors)
                  (step fuel f f.parent_id path (ap (ancestors files fuel) above ∙ walked)),
            )
      ]
    ]

-- If each folder of a set has a parent in the set, then the loop for the path of a folder of the set never
-- ends, however much fuel it has.
pub ancestors_cycle :
    (files : List DriveFile) (inside : ℕ → Bool) (fuel id : ℕ)
    → ((i : ℕ)
        → inside i ≡ true
        → (f : DriveFile) × (j : ℕ) × (folder_at files i ≡ some f)
          × (f.parent_id ≡ some j)
          × (inside j ≡ true))
    → inside id ≡ true
    → ancestors files fuel (some id) ≡ none
unfolding ancestors
ancestors_cycle files inside zero id closed here = refl
ancestors_cycle files inside (suc fuel) id closed here =
    let (f, j, found, above, there) = closed id here in
    let deeper = ancestors_cycle files inside fuel j closed there in
    rw (found, ancestors) (rw (above, deeper) refl)

-- An item of the trash that is not hidden is shown at its top, or in its folder, which is in the trash too.
pub current_trash_folder_files-shows :
    (trash : List DriveFile) (f : DriveFile)
    → In f trash
    → f.is_hidden ≡ false
    → In f (current_trash_folder_files trash none)
      ⊎ ((id : ℕ) × (place_of f ≡ some id)
          × (is_trash_folder trash id ≡ true)
          × In f (current_trash_folder_files trash (some id)))
unfolding current_trash_folder_files
current_trash_folder_files-shows trash f inside shown = elim (Option-cases (place_of f)) [
  | inl top ↦ inl (In-select (is_trash_root trash) trash f inside (rw (top, is_trash_root) refl))
  | inr (id, at) ↦ elim (Bool-cases (is_trash_folder trash id)) [
    | inr gone ↦
        inl (In-select (is_trash_root trash) trash f inside (rw (at, gone, is_trash_root) refl))
    | inl there ↦ inr (
      id,
      at,
      there,
      In-select (λ g. not g.is_hidden && same_folder (place_of g) (some id)) trash f inside
          (rw (shown, at) ((==_iff id id).1 refl)),
    )
  ]
]
