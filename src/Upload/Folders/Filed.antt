-- ===== src/Upload/Folders/Filed.antt =====
-- Where the files of an upload are in the tree that is built for it.
use save_box.Prelude.{
  In, ℕ, suc, ◌≤◌, ◌≡◌, refl, sym, ap, ◌∙◌, ◌↔◌, inl, inr, Option, some, none, List, [], ◌∷◌, ◌++◌,
  ok, arith, length, length-append, ltb, ltb→le, Bool-cases, Option-cases, >>=-eq-ok,
}
use save_box.Session.Token.{Text}
use save_box.Upload.Paths.{UploadFile}
use save_box.Upload.Folders.{
  Node, Tree, TreeFile, key_of, by_parent_and_name, new_node, descend, file_all,
  build_folder_upload_tree, all_but_last, folder_batch_limit,
}
use save_box.Upload.Folders.Shape.{
  In-append_left, In-last, by_parent_and_name-some, IsFresh, IsPlace, IsTree, key_of_injective,
  IsTree-snoc,
}

-- The folder with the reference `r` has the names `up` on its way to the top.
abbrev pub IsPath : List Node → Option Text → List Text → Type 0
IsPath nodes r [] = r ≡ none
IsPath nodes r (name ∷ up) =
    (n : Node) × In n nodes
    × (r ≡ some n.client_ref)
    × (n.name ≡ name)
    × IsPath nodes n.parent_client_ref up

abbrev pub onto : List Text → List Text → List Text
onto [] up = up
onto (name ∷ names) up = onto names (name ∷ up)

-- Each file is filed under the folders of its path, in the order of the files.
abbrev pub AreFiled : List Node → List UploadFile → List TreeFile → Type 0
AreFiled nodes [] [] = Unit
AreFiled nodes [] (r ∷ rs) = ⊥
AreFiled nodes (f ∷ files) [] = ⊥
AreFiled nodes (f ∷ files) (r ∷ rs) =
    (r.file_name ≡ f.file_name)
    × IsPath nodes r.folder_client_ref (onto (all_but_last f.segments) [])
    × AreFiled nodes files rs

abbrev Grows : List Node → List Node → Type 0
Grows nodes nodes' = (n : Node) → In n nodes → In n nodes'

IsPath-Grows :
    (nodes nodes' : List Node) (r : Option Text) (up : List Text)
    → Grows nodes nodes'
    → IsPath nodes r up
    → IsPath nodes' r up
IsPath-Grows nodes nodes' r [] grows top = top
IsPath-Grows nodes nodes' r (name ∷ up) grows (n, inside, at, named, path) =
    (n, grows n inside, at, named, IsPath-Grows nodes nodes' n.parent_client_ref up grows path)

module _ (reference : ℕ → Text) (fresh : IsFresh reference) where
  abbrev Shaped : List Node → Type 0
  Shaped = IsTree reference fresh

  IsPath-IsPlace :
      (nodes : List Node) (r : Option Text) (up : List Text)
      → IsPath nodes r up
      → IsPlace reference fresh nodes r
  IsPath-IsPlace nodes r [] top = inl top
  IsPath-IsPlace nodes r (name ∷ up) (n, inside, at, named, path) = inr (n, inside, at)

  record IsGrown (nodes nodes' : List Node) : Type 0 where
    tree : Shaped nodes'
    grows : Grows nodes nodes'
    small : length nodes' ≤ folder_batch_limit

  descend-IsGrown :
      (names : List Text) (nodes nodes' : List Node) (parent r : Option Text) (up : List Text)
      → Shaped nodes
      → IsPath nodes parent up
      → length nodes ≤ folder_batch_limit
      → descend reference nodes parent names ≡ ok (nodes', r)
      → IsGrown nodes nodes' × IsPath nodes' r (onto names up)
  unfolding descend
  descend-IsGrown [] nodes nodes' parent r up tree path small h =
      let same : nodes ≡ nodes' = cc in
      let at : parent ≡ r = cc in
      rw⁻¹ same (rw⁻¹ at (record { tree = tree; grows = λ n inside. inside; small = small }, path))
  descend-IsGrown (name ∷ names) nodes nodes' parent r up tree path small h =
      elim (Option-cases (by_parent_and_name nodes (key_of parent name))) [
        | inr (n, found) ↦
            let (inside, key) = by_parent_and_name-some nodes (key_of parent name) n found in
            let place = IsPath-IsPlace nodes parent up path in
            let (above, named) =
              key_of_injective reference fresh nodes n.parent_client_ref parent n.name name tree
                (tree.placed n inside) place key in
            descend-IsGrown names nodes nodes' (some n.client_ref) r (name ∷ up) tree
              (n, inside, refl, named, rw above path) small (rw (found, descend) at h)
        | inl missing ↦ elim (Bool-cases (ltb folder_batch_limit (suc (length nodes)))) [
          | inl full ↦ cc (rw (missing, full, descend) at h)
          | inr room ↦
              let n = new_node reference nodes parent name in
              let grown = nodes ++ n ∷ [] in
              let longer = length-append nodes (n ∷ []) in
              let older : Grows nodes grown = λ m inside. In-append_left m nodes (n ∷ []) inside in
              let (later, path') =
                descend-IsGrown names grown nodes' (some n.client_ref) r (name ∷ up)
                  (IsTree-snoc reference fresh nodes parent name tree
                    (IsPath-IsPlace nodes parent up path) missing)
                  (n, In-last n nodes, refl, refl, IsPath-Grows nodes grown parent up older path)
                  (omega (arith, ltb→le _ _ room, longer)) (rw (missing, room, descend) at h) in
              (
                record {
                  tree = later.tree;
                  grows = λ m inside. later.grows m (older m inside);
                  small = later.small;
                },
                path',
              )
        ]
      ]

  AreFiled-Grows :
      (nodes nodes' : List Node) (files : List UploadFile) (rs : List TreeFile)
      → Grows nodes nodes'
      → AreFiled nodes files rs
      → AreFiled nodes' files rs
  AreFiled-Grows nodes nodes' [] [] grows filed = filed
  AreFiled-Grows nodes nodes' [] (r ∷ rs) grows filed = filed
  AreFiled-Grows nodes nodes' (f ∷ files) [] grows filed = filed
  AreFiled-Grows nodes nodes' (f ∷ files) (r ∷ rs) grows (named, path, filed) = (
    named,
    IsPath-Grows nodes nodes' r.folder_client_ref _ grows path,
    AreFiled-Grows nodes nodes' files rs grows filed,
  )

  file_all-AreFiled :
      (files : List UploadFile) (nodes : List Node) (tree : Tree)
      → Shaped nodes
      → length nodes ≤ folder_batch_limit
      → file_all reference nodes files ≡ ok tree
      → IsGrown nodes tree.nodes × AreFiled tree.nodes files tree.files
  unfolding file_all
  file_all-AreFiled [] nodes tree shaped small h =
      let at : record { nodes = nodes; files = [] } ≡ tree = cc in
      rw⁻¹ at (record { tree = shaped; grows = λ n inside. inside; small = small }, tt)
  file_all-AreFiled (f ∷ files) nodes tree shaped small h =
      let ((grown, folder), descended, h') =
        >>=-eq-ok (descend reference nodes none (all_but_last f.segments)) _ h in
      let (rest, filed, made) = >>=-eq-ok (file_all reference grown files) _ h' in
      let (now, path) =
        descend-IsGrown (all_but_last f.segments) nodes grown none folder [] shaped refl small
          descended in
      let (later, all) = file_all-AreFiled files grown rest now.tree now.small filed in
      let at : record rest {
        files = record { file_name = f.file_name; folder_client_ref = folder } ∷ rest.files;
      }
          ≡ tree =
        cc in
      rw⁻¹ at (
        record {
          tree = later.tree;
          grows = λ n inside. later.grows n (now.grows n inside);
          small = later.small;
        },
        (refl, IsPath-Grows grown rest.nodes folder _ later.grows path, all),
      )

  -- If the references are fresh, then in a tree that is built each file, in its order, is filed under the
  -- folders of its path; there are at most 1000 nodes, each below the top or below another node, and two
  -- nodes have neither the same reference nor the same parent and name.
  pub build_folder_upload_tree-AreFiled :
      (files : List UploadFile) (tree : Tree)
      → build_folder_upload_tree reference files ≡ ok tree
      → AreFiled tree.nodes files tree.files
        × IsTree reference fresh tree.nodes
        × (length tree.nodes ≤ folder_batch_limit)
  unfolding build_folder_upload_tree
  build_folder_upload_tree-AreFiled files tree h =
      let (grown, filed) = file_all-AreFiled files [] tree none_yet (omega arith) h in
      (filed, grown.tree, grown.small)
    where
      none_yet : Shaped []
      none_yet = record {
        keyed = λ n m inside. absurd inside;
        referred = λ n m inside. absurd inside;
        numbered = λ n inside. absurd inside;
        placed = λ n inside. absurd inside;
      }

  same_path :
      (nodes : List Node) (p : List Text) (r q : Option Text)
      → Shaped nodes
      → IsPath nodes r p
      → IsPath nodes q p
      → r ≡ q
  same_path nodes [] r q tree top top' = cc
  same_path nodes (name ∷ p) r q tree (n, inn, at, named, path) (m, inm, at', named', path') =
      let above = same_path nodes p n.parent_client_ref m.parent_client_ref tree path path' in
      let one = tree.keyed n m inn inm above (named ∙ sym named') in cc

  same_folder :
      (nodes : List Node) (p p' : List Text) (r q : Option Text)
      → Shaped nodes
      → IsPath nodes r p
      → IsPath nodes q p'
      → r ≡ q
      → p ≡ p'
  same_folder nodes [] [] r q tree path path' same = refl
  same_folder nodes [] (name ∷ p') r q tree top (n, inn, at, named, path') same = cc
  same_folder nodes (name ∷ p) [] r q tree (n, inn, at, named, path) top same = cc
  same_folder nodes (name ∷ p) (name' ∷ p') r q tree (n, inn, at, named, path)
        (m, inm, at', named', path') same =
      let refs : n.client_ref ≡ m.client_ref = cc in
      let one = tree.referred n m inn inm refs in
      let above =
        same_folder nodes p p' n.parent_client_ref m.parent_client_ref tree path path'
          (ap (λ (k : Node). k.parent_client_ref) one) in
      cc

  -- If the references are fresh, then in a tree that is built two folders have the same path just if they
  -- have the same reference.
  pub build_folder_upload_tree_unique :
      (files : List UploadFile) (tree : Tree) (p p' : List Text) (r q : Option Text)
      → build_folder_upload_tree reference files ≡ ok tree
      → IsPath tree.nodes r p
      → IsPath tree.nodes q p'
      → (p ≡ p') ↔ (r ≡ q)
  build_folder_upload_tree_unique files tree p p' r q h path path' =
      let (filed, shaped, small) = build_folder_upload_tree-AreFiled files tree h in
      (
        λ same. same_path tree.nodes p' r q shaped (rw⁻¹ same path) path',
        same_folder tree.nodes p p' r q shaped path path',
      )
