-- ===== src/Drive/Uploads/Selection/Shares.antt =====
-- Every file of a selection is uploaded once.
use save_box.Prelude.{
  ℕ, ◌+◌, ◌≡◌, refl, sym, ap, ◌∙◌, Bool, true, false, not, inl, inr, Option, some, none, List, [],
  ◌∷◌, ◌++◌, map, String, ok, arith, select, count, count-append, append_assoc, append-nil, In,
  member, ◌==◌, ==_iff, Bool-cases,
}
use mathlib.Core.Path.{ap₂}
use save_box.Drive.Uploads.Selection.{
  Selected, FileUpload, Call, single, batch, is_same, in_folder, individual, batched, singles,
  batch_call, after_all, upload_of, upload_files, upload_folder_candidates, folder_batch, group_of,
}

abbrev pub files_of : List FileUpload → List Selected
files_of [] = []
files_of (u ∷ uploads) = u.selected ∷ files_of uploads

-- The files that a list of calls uploads.
abbrev pub uploaded : List Call → List Selected
uploaded [] = []
uploaded (single u group refresh ∷ calls) = u.selected ∷ uploaded calls
uploaded (batch uploads group refresh ∷ calls) = files_of uploads ++ uploaded calls

uploaded-append : (xs ys : List Call) → uploaded (xs ++ ys) ≡ uploaded xs ++ uploaded ys
uploaded-append [] ys = refl
uploaded-append (single u group refresh ∷ xs) ys = ap (◌∷◌ u.selected) (uploaded-append xs ys)
uploaded-append (batch us group refresh ∷ xs) ys =
    ap (λ (r : List Selected). files_of us ++ r) (uploaded-append xs ys)
    ∙ sym (append_assoc (files_of us) (uploaded xs) (uploaded ys))

-- A selection is split by any test.
count-split :
    (p t : Selected → Bool) (xs : List Selected)
    → count p (select t xs) + count p (select (λ s. not (t s)) xs) ≡ count p xs
count-split p t [] = refl
count-split p t (x ∷ xs) = elim (Bool-cases (t x)) [
  | inl passes ↦ rw passes (omega (arith, count-split p t xs))
  | inr fails ↦ rw fails (omega (arith, count-split p t xs))
]

module _ (is_incompatible : ℕ → Bool) where
  incompatible : Selected → Bool
  incompatible s = is_incompatible s.file

  member-compatible :
      (xs : List Selected) (s : Selected)
      → incompatible s ≡ false
      → member is_same (select incompatible xs) s ≡ false
  unfolding incompatible
  member-compatible [] s h = refl
  member-compatible (x ∷ xs) s h = elim (Bool-cases (incompatible x)) [
    | inr fails ↦ rw fails (member-compatible xs s h)
    | inl passes ↦ elim (Bool-cases (s.file == x.file)) [
      | inl same ↦ cc ((==_iff s.file x.file).0 same, passes, h)
      | inr other ↦ rw passes (rw other (member-compatible xs s h))
    ]
  ]

  member-incompatible :
      (xs : List Selected) (s : Selected)
      → In s xs
      → incompatible s ≡ true
      → member is_same (select incompatible xs) s ≡ true
  unfolding incompatible
  member-incompatible [] s h passes = absurd h
  member-incompatible (x ∷ xs) s (inl here) passes =
      let found : is_incompatible x.file ≡ true = rw⁻¹ here passes in
      let same : (s.file == x.file) ≡ true = (==_iff _ _).1 (ap (λ (r : Selected). r.file) here) in
      rw found (rw same refl)
  member-incompatible (x ∷ xs) s (inr there) passes = elim (Bool-cases (is_incompatible x.file)) [
    | inr fails ↦ rw fails (member-incompatible xs s there passes)
    | inl found ↦ elim (Bool-cases (s.file == x.file)) [
      | inl same ↦ rw found (rw same refl)
      | inr other ↦ rw found (rw other (member-incompatible xs s there passes))
    ]
  ]

  -- What is left for the batch are the compatible files.
  select-member :
      (files xs : List Selected)
      → ((s : Selected) → In s xs → In s files)
      → select (λ s. not (member is_same (select incompatible files) s)) xs
        ≡ select (λ s. not (incompatible s)) xs
  select-member files [] within = refl
  select-member files (x ∷ xs) within =
      let ih = select-member files xs (λ s there. within s (inr there)) in
      elim (Bool-cases (incompatible x)) [
        | inl passes ↦
            let chosen = member-incompatible files x (within x (inl refl)) passes in
            rw (passes, chosen) ih
        | inr fails ↦ let left = member-compatible files x fails in rw (fails, left) (ap (◌∷◌ x) ih)
      ]

select_all : (xs : List Selected) → select (λ s. true) xs ≡ xs
select_all [] = refl
select_all (x ∷ xs) = ap (◌∷◌ x) (select_all xs)

count-batched :
    (transcodes : Bool) (is_incompatible : ℕ → Bool) (p : Selected → Bool) (files : List Selected)
    → count p (individual transcodes is_incompatible files)
        + count p (batched transcodes is_incompatible files)
      ≡ count p files
unfolding individual batched incompatible
count-batched false is_incompatible p files =
    let all = ap (count p) (select_all files) in omega (arith, all)
count-batched true is_incompatible p files =
    ap (λ (r : List Selected). count p (select (incompatible is_incompatible) files) + count p r)
      (select-member is_incompatible files files (λ s there. there))
    ∙ count-split p (incompatible is_incompatible) files

files_of-map :
    (f : Selected → FileUpload)
    → ((s : Selected) → (f s).selected ≡ s)
    → (xs : List Selected) → files_of (map f xs) ≡ xs
files_of-map f same [] = refl
files_of-map f same (x ∷ xs) = rw (same x) (ap (◌∷◌ x) (files_of-map f same xs))

module _ (transcodes : Bool) (is_incompatible : ℕ → Bool) (ids : ℕ → String) where
  uploaded-singles :
      (files : List Selected) (group : Option String) (refresh : Bool) (xs : List Selected)
      → uploaded (singles transcodes is_incompatible ids files group refresh xs) ≡ xs
  uploaded-singles files group refresh [] = refl
  uploaded-singles files group refresh (x ∷ xs) =
      ap (◌∷◌ x) (uploaded-singles files group refresh xs)

  uploaded-batch_call :
      (files : List Selected) (group : Option String) (xs : List Selected)
      → uploaded (batch_call transcodes is_incompatible ids files group xs) ≡ xs
  uploaded-batch_call files group [] = refl
  uploaded-batch_call files group (x ∷ []) = refl
  uploaded-batch_call files group (x ∷ y ∷ xs) =
      append-nil _
      ∙ files_of-map (upload_of transcodes is_incompatible ids files) (λ s. refl) (x ∷ y ∷ xs)

  uploaded-folder_batch :
      (files : List Selected) (group : Option String) (xs : List Selected)
      → uploaded (folder_batch transcodes is_incompatible ids files group xs) ≡ xs
  uploaded-folder_batch files group [] = refl
  uploaded-folder_batch files group (x ∷ xs) =
      append-nil _
      ∙ files_of-map (upload_of transcodes is_incompatible ids files) (λ s. refl) (x ∷ xs)

  count-uploaded :
      (p : Selected → Bool) (files : List Selected) (alone together : List Call)
      → uploaded alone ≡ individual transcodes is_incompatible files
      → uploaded together ≡ batched transcodes is_incompatible files
      → count p (uploaded (alone ++ together)) ≡ count p files
  count-uploaded p files alone together one two =
      ap (count p) (uploaded-append alone together)
      ∙ (count-append p (uploaded alone) (uploaded together)
          ∙ (ap₂ (λ (x y : List Selected). count p x + count p y) one two
              ∙ count-batched transcodes is_incompatible p files))

  -- When none of the uploads rejects.
  uploaded-after_all :
      (rejects : Selected → Bool) (alone : List Selected) (calls : List Call)
      → count rejects alone ≡ 0
      → after_all transcodes is_incompatible ids rejects alone calls ≡ calls
  uploaded-after_all rejects alone calls pass = rw ((==_iff _ _).1 pass) refl

  upload_files-count :
      (rejects p : Selected → Bool) (unlocked : Bool) (group : String) (folder : Option ℕ)
      (files : List ℕ) (calls : List Call)
      → count rejects (individual transcodes is_incompatible (in_folder folder files)) ≡ 0
      → upload_files transcodes is_incompatible ids rejects unlocked group folder files ≡ ok calls
      → count p (uploaded calls) ≡ count p (in_folder folder files)
  unfolding upload_files
  upload_files-count rejects p unlocked group folder [] calls pass h =
      let same : [] ≡ calls = cc in rw⁻¹ same refl
  upload_files-count rejects p unlocked group folder (f ∷ []) calls pass h =
      let only : List Call =
        single (record { selected = record { file = f; folder_id = folder }; transfer_id = none })
          none true
        ∷ [] in
      let same : only ≡ calls = cc in rw⁻¹ same refl
  upload_files-count rejects p false group folder (f ∷ g ∷ rest) calls pass h = cc
  upload_files-count rejects p true group folder (f ∷ g ∷ rest) calls pass h =
      let files = in_folder folder (f ∷ g ∷ rest) in
      let alone =
        singles transcodes is_incompatible ids files (some group) true
          (individual transcodes is_incompatible files) in
      let together =
        batch_call transcodes is_incompatible ids files (some group)
          (batched transcodes is_incompatible files) in
      let done =
        uploaded-after_all rejects (individual transcodes is_incompatible files) together pass in
      let same : alone ++ together ≡ calls = cc in
      rw⁻¹ same (
        count-uploaded p files alone together (uploaded-singles files (some group) true _)
          (uploaded-batch_call files (some group) _))

  unlocked :
      (rejects : Selected → Bool) (group : String) (folder : Option ℕ) (files : List ℕ)
      → (calls : List Call) × (upload_files transcodes is_incompatible ids rejects true group folder
            files
          ≡ ok calls)
  unfolding upload_files
  unlocked rejects group folder [] = (_, refl)
  unlocked rejects group folder (f ∷ []) = (_, refl)
  unlocked rejects group folder (f ∷ g ∷ rest) = (_, refl)

  upload_folder_candidates-count :
      (rejects p : Selected → Bool) (group : String) (files : List Selected)
      → count rejects (individual transcodes is_incompatible files) ≡ 0
      → count p
          (uploaded (upload_folder_candidates transcodes is_incompatible ids rejects group files))
        ≡ count p files
  unfolding upload_folder_candidates
  upload_folder_candidates-count rejects p group files pass =
      let id = group_of transcodes is_incompatible ids group files in
      let alone = individual transcodes is_incompatible files in
      let together = batched transcodes is_incompatible files in
      let rest = folder_batch transcodes is_incompatible ids files id together in
      rw (uploaded-after_all rejects alone rest pass) (
        count-uploaded p files (singles transcodes is_incompatible ids files id false alone) rest
          (uploaded-singles files id false alone) (uploaded-folder_batch files id together))

  -- If the drive is open and none of the uploads that are started alone is rejected, then the calls that uploadFiles makes upload each file as often as it was selected,
  -- to the folder of the selection, and those of uploadFolderCandidates each candidate as often as it was
  -- given, to its own folder, whatever the browser can play.
  pub upload_files-upload_folder_candidates :
      (rejects p : Selected → Bool) (group : String) (folder : Option ℕ) (files : List ℕ)
      (candidates : List Selected)
      → count rejects (individual transcodes is_incompatible (in_folder folder files)) ≡ 0
      → count rejects (individual transcodes is_incompatible candidates) ≡ 0
      → (calls : List Call) × (upload_files transcodes is_incompatible ids rejects true group folder
            files
          ≡ ok calls)
        × (count p (uploaded calls) ≡ count p (in_folder folder files))
        × (count p (
              uploaded
                (upload_folder_candidates transcodes is_incompatible ids rejects group candidates))
            ≡ count p candidates)
  upload_files-upload_folder_candidates rejects p group folder files candidates pass pass' =
      let (calls, made) = unlocked rejects group folder files in
      (
        calls,
        made,
        upload_files-count rejects p true group folder files calls pass made,
        upload_folder_candidates-count rejects p group candidates pass',
      )
