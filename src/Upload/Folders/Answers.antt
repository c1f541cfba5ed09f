-- ===== src/Upload/Folders/Answers.antt =====
-- The answer that creates the folders of an upload, once it is accepted.
use save_box.Prelude.{
  ℕ, ◌+◌, ◌≤◌, ◌≡◌, ◌≢◌, refl, sym, ap, ◌∙◌, ◌↔◌, inl, inr, true, false, Option, some, List, [],
  ◌∷◌, map, ok, arith, length, length-map, ==_iff, ◌==◌, Bool-cases, >>=-eq-ok, member, IsDistinct,
  set_of, member-set_of, distinct-member, member-cons, member-cons_none, member_none,
}
use save_box.Session.Token.{Text}
use save_box.Upload.Paths.{text_eq}
use save_box.Upload.Paths.Safe.{text_eq_refl, text_eq→eq}
use save_box.Upload.Folders.{
  Node, Tree, TreeFile, FolderResponse, Services, Candidate, has_id, accept_items,
  validate_response, by_ref, folder_of, prepare_tree, folder_requests, answered, FolderRequest,
}

text_eq_iff : (s t : Text) → (text_eq s t ≡ true) ↔ (s ≡ t)
text_eq_iff s t = (text_eq→eq s t, λ same. rw same (text_eq_refl t))

abbrev refs_of : List FolderResponse → List Text
refs_of = map (λ (r : FolderResponse). r.client_ref)

abbrev ids_of : List FolderResponse → List ℕ
ids_of = map (λ (r : FolderResponse). r.folder_id)

-- Items that are accepted after `seen` and `ids`.
record AreAccepted (expected : List Text) (rs : List FolderResponse) (seen : List Text)
    (ids : List ℕ) : Type 0 where
  wanted : (z : Text) → member text_eq (refs_of rs) z ≡ true → member text_eq expected z ≡ true
  unseen : (z : Text) → member text_eq (refs_of rs) z ≡ true → member text_eq seen z ≡ false
  refs_distinct : IsDistinct text_eq (refs_of rs)
  unused : (i : ℕ) → has_id (ids_of rs) i ≡ true → has_id ids i ≡ false
  ids_distinct : IsDistinct (λ (a b : ℕ). a == b) (ids_of rs)
  positive : (i : ℕ) → has_id (ids_of rs) i ≡ true → i ≢ 0

accept_items-cons :
    (expected : List Text) (r : FolderResponse) (rs : List FolderResponse) (seen all : List Text)
    (ids : List ℕ)
    → accept_items expected (r ∷ rs) seen ids ≡ ok all
    → (member text_eq expected r.client_ref ≡ true)
      × (member text_eq seen r.client_ref ≡ false)
      × (r.folder_id ≢ 0)
      × (has_id ids r.folder_id ≡ false)
      × (accept_items expected rs (r.client_ref ∷ seen) (r.folder_id ∷ ids) ≡ ok all)
unfolding accept_items
accept_items-cons expected r rs seen all ids h = ground arith

accept_items-AreAccepted :
    (expected : List Text) (rs : List FolderResponse) (seen all : List Text) (ids : List ℕ)
    → accept_items expected rs seen ids ≡ ok all
    → AreAccepted expected rs seen ids × (length all ≡ length seen + length rs)
unfolding accept_items
accept_items-AreAccepted expected [] seen all ids h =
    let at : seen ≡ all = cc in
    (
      record {
        wanted = λ z there. cc;
        unseen = λ z there. cc;
        refs_distinct = tt;
        unused = λ i there. cc;
        ids_distinct = tt;
        positive = λ i there. cc;
      },
      omega (arith, ap length at),
    )
accept_items-AreAccepted expected (r ∷ rs) seen all ids h =
    let (wanted, unseen, positive, unused, h') = accept_items-cons expected r rs seen all ids h in
    let (rest, counted) =
      accept_items-AreAccepted expected rs (r.client_ref ∷ seen) all (r.folder_id ∷ ids) h' in
    let same_iff = λ (a b : ℕ). ==_iff a b in
    (
      record {
        wanted = λ z there.
            elim (member-cons text_eq text_eq_iff r.client_ref z (refs_of rs) there) [
              | inl here ↦ rw here wanted
              | inr later ↦ rest.wanted z later
            ];
        unseen = λ z there.
            elim (member-cons text_eq text_eq_iff r.client_ref z (refs_of rs) there) [
              | inl here ↦ rw here unseen
              | inr later ↦
                  (member-cons_none text_eq text_eq_iff r.client_ref z seen (rest.unseen z later)).1
            ];
        refs_distinct = (
          member_none text_eq text_eq_iff r.client_ref (refs_of rs) (λ z later.
              (member-cons_none text_eq text_eq_iff r.client_ref z seen (rest.unseen z later)).0),
          rest.refs_distinct,
        );
        unused = λ i there. elim (member-cons ◌==◌ same_iff r.folder_id i (ids_of rs) there) [
          | inl here ↦ rw here unused
          | inr later ↦ (member-cons_none ◌==◌ same_iff r.folder_id i ids (rest.unused i later)).1
        ];
        ids_distinct = (
          member_none ◌==◌ same_iff r.folder_id (ids_of rs) (λ i later.
              (member-cons_none ◌==◌ same_iff r.folder_id i ids (rest.unused i later)).0),
          rest.ids_distinct,
        );
        positive = λ i there. elim (member-cons ◌==◌ same_iff r.folder_id i (ids_of rs) there) [
          | inl here ↦ λ zeroed. positive (sym here ∙ zeroed)
          | inr later ↦ rest.positive i later
        ];
      },
      omega (arith, counted),
    )

by_ref-member :
    (rs : List FolderResponse) (ref : Text)
    → member text_eq (refs_of rs) ref ≡ true
    → (i : ℕ) × (by_ref rs ref ≡ some i) × (has_id (ids_of rs) i ≡ true)
by_ref-member [] ref there = cc
by_ref-member (r ∷ rs) ref there = elim (Bool-cases (text_eq ref r.client_ref)) [
  | inl here ↦ (r.folder_id, rw here refl, rw ((==_iff r.folder_id r.folder_id).1 refl) refl)
  | inr away ↦
      let (i, found, inside) = by_ref-member rs ref (rw away at there) in
      (
        i,
        rw away found,
        elim (Bool-cases (i == r.folder_id)) [ inl e ↦ rw e refl | inr e ↦ rw e inside ],
      )
]

-- `ref` is a reference of the response whenever it has an id.
by_ref-some :
    (rs : List FolderResponse) (ref : Text) (i : ℕ)
    → by_ref rs ref ≡ some i
    → has_id (ids_of rs) i ≡ true
by_ref-some [] ref i h = cc
by_ref-some (r ∷ rs) ref i h = elim (Bool-cases (text_eq ref r.client_ref)) [
  | inl here ↦ let at : r.folder_id ≡ i = cc (rw here at h) in rw at (rw ((==_iff i i).1 refl) refl)
  | inr away ↦
      let inside = by_ref-some rs ref i (rw away at h) in
      elim (Bool-cases (i == r.folder_id)) [ inl e ↦ rw e refl | inr e ↦ rw e inside ]
]

by_ref_injective :
    (rs : List FolderResponse) (x y : Text) (i : ℕ)
    → IsDistinct (λ (a b : ℕ). a == b) (ids_of rs)
    → by_ref rs x ≡ some i
    → by_ref rs y ≡ some i
    → x ≡ y
by_ref_injective [] x y i distinct hx hy = cc
by_ref_injective (r ∷ rs) x y i (fresh, distinct) hx hy =
    elim (Bool-cases (text_eq x r.client_ref)) [
      | inl here ↦ elim (Bool-cases (text_eq y r.client_ref)) [
        | inl here' ↦ text_eq→eq x r.client_ref here ∙ sym (text_eq→eq y r.client_ref here')
        | inr away' ↦
            let at : r.folder_id ≡ i = cc (rw here at hx) in
            let again = by_ref-some rs y i (rw away' at hy) in cc
      ]
      | inr away ↦ elim (Bool-cases (text_eq y r.client_ref)) [
        | inl here' ↦
            let at : r.folder_id ≡ i = cc (rw here' at hy) in
            let again = by_ref-some rs x i (rw away at hx) in cc
        | inr away' ↦ by_ref_injective rs x y i distinct (rw away at hx) (rw away' at hy)
      ]
    ]

-- What an accepted response says.
pub record IsAnswer (expected : List Text) (response : List FolderResponse) : Type 0 where
  pub answers :
      (ref : Text)
      → member text_eq expected ref ≡ true
      → (i : ℕ) × (by_ref response ref ≡ some i) × (i ≢ 0)
  pub apart : (x y : Text) (i : ℕ) → by_ref response x ≡ some i → by_ref response y ≡ some i → x ≡ y

validate_response-ok :
    (expected : List Text) (response accepted : List FolderResponse)
    → validate_response expected response ≡ ok accepted
    → (seen : List Text) × (accept_items expected response [] [] ≡ ok seen)
      × (length seen ≡ length (set_of text_eq expected))
      × (response ≡ accepted)
unfolding validate_response
validate_response-ok expected response accepted h =
    elim (Bool-cases (length response == length expected)) [
      | inr other ↦ cc (rw other at h)
      | inl equal ↦
          let (seen, taken, h') =
            >>=-eq-ok (accept_items expected response [] []) _ (rw equal at h) in
          elim (Bool-cases (length seen == length (set_of text_eq expected))) [
            | inr other ↦ cc (rw other at h')
            | inl equal' ↦ (seen, taken, (==_iff _ _).0 equal', cc (rw equal' at h'))
          ]
    ]

validate_response-IsAnswer :
    (expected : List Text) (response accepted : List FolderResponse)
    → validate_response expected response ≡ ok accepted
    → (response ≡ accepted) × IsAnswer expected response
unfolding validate_response
validate_response-IsAnswer expected response accepted h =
    let (seen, taken, whole, same) = validate_response-ok expected response accepted h in
    let (items, counted) = accept_items-AreAccepted expected response [] seen [] taken in
    let within : (z : Text)
        → member text_eq (refs_of response) z ≡ true
        → member text_eq (set_of text_eq expected) z ≡ true =
      λ z there. member-set_of text_eq text_eq_iff expected z ∙ items.wanted z there in
    let enough : length (set_of text_eq expected) ≤ length (refs_of response) =
      omega (arith, whole, counted, length-map response (λ (r : FolderResponse). r.client_ref)) in
    (
      same,
      record {
        answers = λ ref there.
            let inside =
              distinct-member text_eq text_eq_iff (refs_of response) (set_of text_eq expected) ref
                items.refs_distinct within enough
                (member-set_of text_eq text_eq_iff expected ref ∙ there) in
            let (i, found, used) = by_ref-member response ref inside in
            (i, found, items.positive i used);
        apart = λ x y i. by_ref_injective response x y i items.ids_distinct;
      },
    )

-- If `prepareTree` ends, then the server has answered its one request, for the folders of the tree's nodes,
-- with a response that gives every candidate its folder, that of its file's reference or the root. That
-- response has an id other than 0 for each node's reference, and never the same id for two references.
pub prepare_tree-IsAnswer :
    (services : Services) (tree : Tree) (root : Option ℕ) (candidates : List Candidate)
    → prepare_tree services tree root ≡ ok candidates
    → (folders : List FolderRequest) × (response : List FolderResponse) × (folder_requests services
          tree.nodes
        ≡ ok folders)
      × (answered (services.batch_create_folders root folders) ≡ ok response)
      × (candidates
          ≡ map
              (λ (f : TreeFile). record {
                file_name = f.file_name;
                folder_id = folder_of response root f.folder_client_ref;
              })
              tree.files)
      × IsAnswer (map (λ (k : Node). k.client_ref) tree.nodes) response
unfolding prepare_tree
prepare_tree-IsAnswer services tree root candidates h =
    let (folders, requested, h₁) = >>=-eq-ok (folder_requests services tree.nodes) _ h in
    let (response, received, h₂) =
      >>=-eq-ok (answered (services.batch_create_folders root folders)) _ h₁ in
    let (accepted, valid, made) =
      >>=-eq-ok (validate_response (map (λ (k : Node). k.client_ref) tree.nodes) response) _ h₂ in
    let (same, answer) =
      validate_response-IsAnswer (map (λ (k : Node). k.client_ref) tree.nodes) response accepted
        valid in
    (folders, response, requested, received, cc, answer)
