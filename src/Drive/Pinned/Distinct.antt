-- ===== src/Drive/Pinned/Distinct.antt =====
-- Lists of ids that have each id once.
use save_box.Prelude.{
  ℕ, ◌≡◌, refl, inl, inr, Bool, false, List, [], ◌∷◌, ◌++◌, ◌==◌, ==_iff, select, ltb, IsDistinct,
  member-cons_none, arith, Bool-cases,
}
use save_box.Drive.Pinned.{PinnedFolder, has, insert, sorted, ids_of}

abbrev pub AreDistinct : List ℕ → Type 0
AreDistinct = IsDistinct ◌==◌

has-snoc :
    (ids : List ℕ) (x y : ℕ) → has ids y ≡ false → (y == x) ≡ false → has (ids ++ x ∷ []) y ≡ false
has-snoc [] x y fresh apart = rw apart refl
has-snoc (i ∷ ids) x y fresh apart =
    let (first, rest) = member-cons_none ◌==◌ (λ a b. ==_iff a b) i y ids fresh in
    rw first (has-snoc ids x y rest apart)

eq_away : (a b : ℕ) → (a == b) ≡ false → (b == a) ≡ false
eq_away a b h = ground arith

pub AreDistinct-snoc :
    (ids : List ℕ) (x : ℕ) → AreDistinct ids → has ids x ≡ false → AreDistinct (ids ++ x ∷ [])
AreDistinct-snoc [] x distinct fresh = (refl, tt)
AreDistinct-snoc (i ∷ ids) x (first, distinct) fresh =
    let (apart, rest) = member-cons_none ◌==◌ (λ a b. ==_iff a b) i x ids fresh in
    (has-snoc ids x i first (eq_away x i apart), AreDistinct-snoc ids x distinct rest)

has-select :
    (keep : ℕ → Bool) (ids : List ℕ) (x : ℕ) → has ids x ≡ false → has (select keep ids) x ≡ false
has-select keep [] x fresh = refl
has-select keep (i ∷ ids) x fresh =
    let (apart, rest) = member-cons_none ◌==◌ (λ a b. ==_iff a b) i x ids fresh in
    elim (Bool-cases (keep i)) [
      | inl kept ↦ rw kept (rw apart (has-select keep ids x rest))
      | inr dropped ↦ rw dropped (has-select keep ids x rest)
    ]

pub AreDistinct-select :
    (keep : ℕ → Bool) (ids : List ℕ) → AreDistinct ids → AreDistinct (select keep ids)
AreDistinct-select keep [] distinct = tt
AreDistinct-select keep (i ∷ ids) (first, distinct) = elim (Bool-cases (keep i)) [
  | inl kept ↦ rw kept (has-select keep ids i first, AreDistinct-select keep ids distinct)
  | inr dropped ↦ rw dropped (AreDistinct-select keep ids distinct)
]

has-insert :
    (f : PinnedFolder) (gs : List PinnedFolder) (x : ℕ)
    → (x == f.folder_id) ≡ false
    → has (ids_of gs) x ≡ false
    → has (ids_of (insert f gs)) x ≡ false
has-insert f [] x apart fresh = rw apart refl
has-insert f (g ∷ gs) x apart fresh =
    let (first, rest) = member-cons_none ◌==◌ (λ a b. ==_iff a b) g.folder_id x (ids_of gs) fresh in
    elim (Bool-cases (ltb g.position f.position)) [
      | inl later ↦ rw later (rw first (has-insert f gs x apart rest))
      | inr now ↦ rw now (rw apart (rw first rest))
    ]

AreDistinct-insert :
    (f : PinnedFolder) (gs : List PinnedFolder)
    → has (ids_of gs) f.folder_id ≡ false
    → AreDistinct (ids_of gs)
    → AreDistinct (ids_of (insert f gs))
AreDistinct-insert f [] fresh distinct = (refl, tt)
AreDistinct-insert f (g ∷ gs) fresh (first, distinct) =
    let (apart, rest) =
      member-cons_none ◌==◌ (λ a b. ==_iff a b) g.folder_id f.folder_id (ids_of gs) fresh in
    elim (Bool-cases (ltb g.position f.position)) [
      | inl later ↦ rw later (
        has-insert f gs g.folder_id (eq_away f.folder_id g.folder_id apart) first,
        AreDistinct-insert f gs rest distinct,
      )
      | inr now ↦ rw now (fresh, (first, distinct))
    ]

has-sorted :
    (fs : List PinnedFolder) (x : ℕ)
    → has (ids_of fs) x ≡ false
    → has (ids_of (sorted fs)) x ≡ false
has-sorted [] x fresh = refl
has-sorted (f ∷ fs) x fresh =
    let (apart, rest) = member-cons_none ◌==◌ (λ a b. ==_iff a b) f.folder_id x (ids_of fs) fresh in
    has-insert f (sorted fs) x apart (has-sorted fs x rest)

pub AreDistinct-sorted :
    (fs : List PinnedFolder) → AreDistinct (ids_of fs) → AreDistinct (ids_of (sorted fs))
AreDistinct-sorted [] distinct = tt
AreDistinct-sorted (f ∷ fs) (fresh, distinct) =
    AreDistinct-insert f (sorted fs) (has-sorted fs f.folder_id fresh)
      (AreDistinct-sorted fs distinct)
