-- ===== src/Upload/Folders/Shape.antt =====
-- The tree that is built for an upload has one node for each folder.
use save_box.Prelude.{
  ℕ, ◌+◌, ◌<◌, ◌≡◌, ◌≢◌, refl, sym, ap, ◌∙◌, ◌⊎◌, inl, inr, true, false, Option, some, none, List,
  [], ◌∷◌, ◌++◌, arith, length, length-append, Bool-cases, In, ==_iff, ◌==◌,
}
use save_box.Session.Token.{Text}
use save_box.Upload.Paths.{text_eq, contains}
use save_box.Upload.Paths.Safe.{text_eq_refl, text_eq→eq}
use save_box.Upload.Folders.{Node, root_text, key_of, by_parent_and_name, new_node}

pub In-append_left : (n : Node) (ns ms : List Node) → In n ns → In n (ns ++ ms)
In-append_left n [] ms h = absurd h
In-append_left n (m ∷ ns) ms (inl here) = inl here
In-append_left n (m ∷ ns) ms (inr there) = inr (In-append_left n ns ms there)

pub In-last : (n : Node) (ns : List Node) → In n (ns ++ n ∷ [])
In-last n [] = inl refl
In-last n (m ∷ ns) = inr (In-last n ns)

In-snoc : (n m : Node) (ns : List Node) → In n (ns ++ m ∷ []) → In n ns ⊎ (n ≡ m)
In-snoc n m [] (inl here) = inr here
In-snoc n m [] (inr there) = elim there [ ]
In-snoc n m (k ∷ ns) (inl here) = inl (inl here)
In-snoc n m (k ∷ ns) (inr there) = elim (In-snoc n m ns there) [
  | inl old ↦ inl (inr old)
  | inr new ↦ inr new
]

pub by_parent_and_name-some :
    (nodes : List Node) (key : Text) (n : Node)
    → by_parent_and_name nodes key ≡ some n
    → In n nodes × (key_of n.parent_client_ref n.name ≡ key)
by_parent_and_name-some [] key n h = cc
by_parent_and_name-some (m ∷ nodes) key n h =
    elim (Bool-cases (text_eq (key_of m.parent_client_ref m.name) key)) [
      | inl same ↦
          let at : m ≡ n = cc (rw same at h) in (inl (sym at), rw⁻¹ at (text_eq→eq _ _ same))
      | inr other ↦
          let (inside, equal) = by_parent_and_name-some nodes key n (rw other at h) in
          (inr inside, equal)
    ]

by_parent_and_name-none :
    (nodes : List Node) (key : Text) (n : Node)
    → by_parent_and_name nodes key ≡ none
    → In n nodes
    → key_of n.parent_client_ref n.name ≢ key
by_parent_and_name-none [] key n h inside equal = inside
by_parent_and_name-none (m ∷ nodes) key n h inside equal =
    elim (Bool-cases (text_eq (key_of m.parent_client_ref m.name) key)) [
      | inl same ↦ cc (rw same at h)
      | inr other ↦ elim inside [
        | inl here ↦
            let key_here : key_of m.parent_client_ref m.name ≡ key = rw⁻¹ here equal in
            cc (text_eq_refl key, rw key_here at other)
        | inr there ↦ by_parent_and_name-none nodes key n (rw other at h) there equal
      ]
    ]

-- Text up to its first line feed.
split_unique :
    (a b x y : Text)
    → contains a 10 ≡ false
    → contains b 10 ≡ false
    → a ++ 10 ∷ x ≡ b ++ 10 ∷ y
    → (a ≡ b) × (x ≡ y)
split_unique [] [] x y ha hb e = (refl, cc)
split_unique [] (d ∷ b) x y ha hb e =
    let feed : (d == 10) ≡ true = (==_iff d 10).1 (sym cc) in cc (rw feed at hb)
split_unique (c ∷ a) [] x y ha hb e =
    let feed : (c == 10) ≡ true = (==_iff c 10).1 cc in cc (rw feed at ha)
split_unique (c ∷ a) (d ∷ b) x y ha hb e = elim (Bool-cases (c == 10)) [
  | inl feed ↦ cc (rw feed at ha)
  | inr plain ↦ elim (Bool-cases (d == 10)) [
    | inl feed ↦ cc (rw feed at hb)
    | inr plain' ↦
        let (front, back) = split_unique a b x y (rw plain at ha) (rw plain' at hb) cc in (cc, back)
  ]
]

-- What the factory of references returns: texts that differ, without a line feed, none of them `root`.
pub record IsFresh (reference : ℕ → Text) : Type 0 where
  pub apart : (i j : ℕ) → reference i ≡ reference j → i ≡ j
  pub one_line : (i : ℕ) → contains (reference i) 10 ≡ false
  pub not_root : (i : ℕ) → reference i ≢ root_text

module _ (reference : ℕ → Text) (fresh : IsFresh reference) where
  -- A folder in the making: the top, or the reference of a node.
  abbrev pub IsPlace : List Node → Option Text → Type 0
  IsPlace nodes place = (place ≡ none) ⊎ ((n : Node) × In n nodes × (place ≡ some n.client_ref))

  pub record IsTree (nodes : List Node) : Type 0 where
    pub keyed :
        (n m : Node)
        → In n nodes
        → In m nodes
        → n.parent_client_ref ≡ m.parent_client_ref
        → n.name ≡ m.name
        → n ≡ m
    pub referred : (n m : Node) → In n nodes → In m nodes → n.client_ref ≡ m.client_ref → n ≡ m
    pub numbered :
        (n : Node) → In n nodes → (i : ℕ) × (i < length nodes) × (n.client_ref ≡ reference i)
    pub placed : (n : Node) → In n nodes → IsPlace nodes n.parent_client_ref

  place_text : Option Text → Text
  place_text none = root_text
  place_text (some ref) = ref

  key_of_lem : (p : Option Text) (x : Text) → key_of p x ≡ place_text p ++ 10 ∷ x
  unfolding place_text
  key_of_lem none x = refl
  key_of_lem (some ref) x = refl

  IsPlace-numbered :
      (nodes : List Node) (p : Option Text)
      → IsTree nodes
      → IsPlace nodes p
      → (p ≡ none) ⊎ ((i : ℕ) × (p ≡ some (reference i)))
  IsPlace-numbered nodes p tree (inl top) = inl top
  IsPlace-numbered nodes p tree (inr (n, inside, at)) =
      let (i, below, made) = tree.numbered n inside in inr (i, cc)

  place_text-one_line :
      (p : Option Text)
      → (p ≡ none) ⊎ ((i : ℕ) × (p ≡ some (reference i)))
      → contains (place_text p) 10 ≡ false
  unfolding place_text
  place_text-one_line p (inl top) = rw top refl
  place_text-one_line p (inr (i, at)) = rw at (fresh.one_line i)

  place_text_injective :
      (p q : Option Text)
      → (p ≡ none) ⊎ ((i : ℕ) × (p ≡ some (reference i)))
      → (q ≡ none) ⊎ ((i : ℕ) × (q ≡ some (reference i)))
      → place_text p ≡ place_text q
      → p ≡ q
  unfolding place_text
  place_text_injective p q (inl top) (inl top') e = cc
  place_text_injective p q (inl top) (inr (i, at)) e =
      absurd (fresh.not_root i (sym (rw (top, at) at e)))
  place_text_injective p q (inr (i, at)) (inl top) e = absurd (fresh.not_root i (rw (top, at) at e))
  place_text_injective p q (inr (i, at)) (inr (j, at')) e =
      let texts : reference i ≡ reference j = rw (at, at') at e in cc

  pub key_of_injective :
      (nodes : List Node) (p q : Option Text) (x y : Text)
      → IsTree nodes
      → IsPlace nodes p
      → IsPlace nodes q
      → key_of p x ≡ key_of q y
      → (p ≡ q) × (x ≡ y)
  key_of_injective nodes p q x y tree hp hq e =
      let np = IsPlace-numbered nodes p tree hp in
      let nq = IsPlace-numbered nodes q tree hq in
      let (front, back) =
        split_unique (place_text p) (place_text q) x y (place_text-one_line p np)
          (place_text-one_line q nq) (sym (key_of_lem p x) ∙ (e ∙ key_of_lem q y)) in
      (place_text_injective p q np nq front, back)

  pub IsPlace-append :
      (nodes more : List Node) (p : Option Text) → IsPlace nodes p → IsPlace (nodes ++ more) p
  IsPlace-append nodes more p (inl top) = inl top
  IsPlace-append nodes more p (inr (n, inside, at)) =
      inr (n, In-append_left n nodes more inside, at)

  -- A new node under a key that no node has.
  pub IsTree-snoc :
      (nodes : List Node) (parent : Option Text) (name : Text)
      → IsTree nodes
      → IsPlace nodes parent
      → by_parent_and_name nodes (key_of parent name) ≡ none
      → IsTree (nodes ++ new_node reference nodes parent name ∷ [])
  IsTree-snoc nodes parent name tree place missing = record {
    keyed = λ n m inn inm parents names. elim (In-snoc n new nodes inn) [
      | inl old ↦ elim (In-snoc m new nodes inm) [
        | inl old' ↦ tree.keyed n m old old' parents names
        | inr at ↦ absurd (
            unused n old (parents ∙ ap (λ (k : Node). k.parent_client_ref) at)
              (names ∙ ap (λ (k : Node). k.name) at))
      ]
      | inr at ↦ elim (In-snoc m new nodes inm) [
        | inl old' ↦ absurd (
            unused m old' (sym parents ∙ ap (λ (k : Node). k.parent_client_ref) at)
              (sym names ∙ ap (λ (k : Node). k.name) at))
        | inr at' ↦ cc
      ]
    ];
    referred = λ n m inn inm refs. elim (In-snoc n new nodes inn) [
      | inl old ↦ elim (In-snoc m new nodes inm) [
        | inl old' ↦ tree.referred n m old old' refs
        | inr at ↦ absurd (later n old (refs ∙ ap (λ (k : Node). k.client_ref) at))
      ]
      | inr at ↦ elim (In-snoc m new nodes inm) [
        | inl old' ↦ absurd (later m old' (sym refs ∙ ap (λ (k : Node). k.client_ref) at))
        | inr at' ↦ cc
      ]
    ];
    numbered = λ n inn. elim (In-snoc n new nodes inn) [
      | inl old ↦
          let (i, below, made) = tree.numbered n old in (i, omega (arith, below, longer), made)
      | inr at ↦ (length nodes, omega (arith, longer), ap (λ (k : Node). k.client_ref) at)
    ];
    placed = λ n inn. elim (In-snoc n new nodes inn) [
      | inl old ↦ IsPlace-append nodes (new ∷ []) n.parent_client_ref (tree.placed n old)
      | inr at ↦ rw at (IsPlace-append nodes (new ∷ []) parent place)
    ];
  }
    where
      new : Node
      new = new_node reference nodes parent name

      longer : length (nodes ++ new ∷ []) ≡ length nodes + 1
      longer = length-append nodes (new ∷ [])

      unused : (n : Node) → In n nodes → n.parent_client_ref ≡ parent → n.name ≡ name → ⊥
      unused n old parents names =
          by_parent_and_name-none nodes (key_of parent name) n missing old
            (rw (parents, names) refl)

      later : (n : Node) → In n nodes → n.client_ref ≢ reference (length nodes)
      later n old at =
          let (i, below, made) = tree.numbered n old in
          let same : i ≡ length nodes = fresh.apart i (length nodes) (sym made ∙ at) in omega arith
