-- ===== src/Drive/Items/Proxies.antt =====
-- What becomes of the proxies of files that are trashed, restored or deleted.
use save_box.Prelude.{
  ℕ, ◌≡◌, ◌↔◌, ◌⊎◌, refl, sym, ap, inl, inr, Bool, true, false, not, some, none, List, [], ◌∷◌,
  ◌++◌, ◌==◌, ==_iff, append-nil, arith, Bool-cases, select, find_first, member, In, select-In,
  In-select,
}
use save_box.Drive.Files.{DriveFile}
use save_box.Drive.Items.{
  Request, batch_hard_delete_files, batch_hard_delete_folders, trash_file, restore_file,
  hard_delete_file, is_proxy, is_legacy_proxy, trash_item, restore_item, permanent_delete_item,
  ids_of, file_ids, folder_ids, for_ids, proxy_ids, batch_permanent_delete_items,
}

abbrev has : List ℕ → ℕ → Bool
has = member ◌==◌

has-append :
    (xs ys : List ℕ) (i : ℕ) → has (xs ++ ys) i ≡ true → (has xs i ≡ true) ⊎ (has ys i ≡ true)
has-append [] ys i h = inr h
has-append (x ∷ xs) ys i h = elim (Bool-cases (i == x)) [
  | inl here ↦ inl (rw here refl)
  | inr away ↦ elim (has-append xs ys i (rw away at h)) [ inl l ↦ inl (rw away l) | inr r ↦ inr r ]
]

has-append_left : (xs ys : List ℕ) (i : ℕ) → has xs i ≡ true → has (xs ++ ys) i ≡ true
has-append_left [] ys i h = cc
has-append_left (x ∷ xs) ys i h = elim (Bool-cases (i == x)) [
  | inl here ↦ rw here refl
  | inr away ↦ rw away (has-append_left xs ys i (rw away at h))
]

has-append_right : (xs ys : List ℕ) (i : ℕ) → has ys i ≡ true → has (xs ++ ys) i ≡ true
has-append_right [] ys i h = h
has-append_right (x ∷ xs) ys i h = elim (Bool-cases (i == x)) [
  | inl here ↦ rw here refl
  | inr away ↦ rw away (has-append_right xs ys i h)
]

module _ (test : DriveFile → Bool) where
  abbrev Chosen : List DriveFile → ℕ → Type 0
  Chosen xs i = (f : DriveFile) × In f xs × (test f ≡ true) × (f.id ≡ i)

  later : (x : DriveFile) (xs : List DriveFile) (i : ℕ) → Chosen xs i → Chosen (x ∷ xs) i
  later x xs i (f, inside, passes, at) = (f, inr inside, passes, at)

  has-select : (xs : List DriveFile) (i : ℕ) → has (ids_of (select test xs)) i ≡ true → Chosen xs i
  has-select [] i h = cc
  has-select (x ∷ xs) i h = elim (Bool-cases (test x)) [
    | inr fails ↦ later x xs i (has-select xs i (rw fails at h))
    | inl passes ↦ elim (Bool-cases (i == x.id)) [
      | inl here ↦ (x, inl refl, passes, sym ((==_iff i x.id).0 here))
      | inr away ↦ later x xs i (has-select xs i (rw (passes, away) at h))
    ]
  ]

  select-has :
      (xs : List DriveFile) (f : DriveFile)
      → In f xs
      → test f ≡ true
      → has (ids_of (select test xs)) f.id ≡ true
  select-has [] f inside passes = absurd inside
  select-has (x ∷ xs) f (inl here) passes =
      let passes' : test x ≡ true = rw here at passes in
      let at : (f.id == x.id) ≡ true = (==_iff f.id x.id).1 (ap (λ (g : DriveFile). g.id) here) in
      rw (passes', at) refl
  select-has (x ∷ xs) f (inr there) passes = elim (Bool-cases (test x)) [
    | inr fails ↦ rw fails (select-has xs f there passes)
    | inl found ↦ elim (Bool-cases (f.id == x.id)) [
      | inl same ↦ rw (found, same) refl
      | inr away ↦ rw (found, away) (select-has xs f there passes)
    ]
  ]

-- The files that requests delete.
-- The files that the requests name. Those inside a folder go with it on the server, and are not among them.
abbrev pub requested_files : List Request → List ℕ
requested_files [] = []
requested_files (batch_hard_delete_files ids ∷ requests) = ids ++ requested_files requests
requested_files (_ ∷ requests) = requested_files requests

requested_files-for_ids :
    (ids folders : List ℕ)
    → requested_files
        (for_ids batch_hard_delete_files ids ++ for_ids batch_hard_delete_folders folders)
      ≡ ids
requested_files-for_ids [] [] = refl
requested_files-for_ids [] (i ∷ folders) = refl
requested_files-for_ids (i ∷ ids) [] = append-nil (i ∷ ids)
requested_files-for_ids (i ∷ ids) (j ∷ folders) = append-nil (i ∷ ids)

-- A proxy in the trash of one of the files.
abbrev HasProxy : List DriveFile → List DriveFile → ℕ → Type 0
HasProxy trash_files files i =
    (f : DriveFile) × In f files
    × ((p : DriveFile) × In p trash_files × (is_proxy f p ≡ true) × (p.id ≡ i))

proxy_ids-HasProxy :
    (trash_files files : List DriveFile) (i : ℕ)
    → has (proxy_ids trash_files files) i ≡ true
    → HasProxy trash_files files i
proxy_ids-HasProxy trash_files [] i h = cc
proxy_ids-HasProxy trash_files (f ∷ files) i h =
    elim (has-append (ids_of (select (is_proxy f) trash_files)) (proxy_ids trash_files files) i h) [
      | inl now ↦ (f, inl refl, has-select (is_proxy f) trash_files i now)
      | inr rest ↦
          let (g, inside, proxy) = proxy_ids-HasProxy trash_files files i rest in
          (g, inr inside, proxy)
    ]

HasProxy-proxy_ids :
    (trash_files files : List DriveFile) (f p : DriveFile)
    → In f files
    → In p trash_files
    → is_proxy f p ≡ true
    → has (proxy_ids trash_files files) p.id ≡ true
HasProxy-proxy_ids trash_files [] f p inf inp proxy = absurd inf
HasProxy-proxy_ids trash_files (g ∷ files) f p (inl here) inp proxy =
    has-append_left (ids_of (select (is_proxy g) trash_files)) (proxy_ids trash_files files) p.id
      (select-has (is_proxy g) trash_files p inp (rw here at proxy))
HasProxy-proxy_ids trash_files (g ∷ files) f p (inr there) inp proxy =
    has-append_right (ids_of (select (is_proxy g) trash_files)) (proxy_ids trash_files files) p.id
      (HasProxy-proxy_ids trash_files files f p there inp proxy)

-- A permanent deletion of a selection asks the server to delete the file with the id `i` itself just if a
-- file of the selection, not a folder, has the id, or a proxy of such a file in the trash has it. What
-- the server deletes with the folders of the selection is not stated.
pub batch_permanent_delete_items_iff :
    (trash_files files : List DriveFile) (i : ℕ)
    → (member ◌==◌ (requested_files (batch_permanent_delete_items trash_files files)) i ≡ true) ↔ (
        (f : DriveFile) × In f files
        × (f.is_folder ≡ false)
        × ((f.id ≡ i) ⊎ ((p : DriveFile) × In p trash_files × (is_proxy f p ≡ true) × (p.id ≡ i))))
unfolding batch_permanent_delete_items
batch_permanent_delete_items_iff trash_files files i =
    let chosen = select (λ f. not f.is_folder) files in
    rw (requested_files-for_ids (file_ids files ++ proxy_ids trash_files chosen) (folder_ids files))
      (
        λ h. elim (has-append (file_ids files) (proxy_ids trash_files chosen) i h) [
          | inl own ↦
              let (f, inside, kind, at) = has-select (λ f. not f.is_folder) files i own in
              (f, inside, not_true f.is_folder kind, inl at)
          | inr proxies ↦
              let (f, inside, proxy) = proxy_ids-HasProxy trash_files chosen i proxies in
              let (inside', kind) = select-In (λ (f : DriveFile). not f.is_folder) files f inside in
              (f, inside', not_true f.is_folder kind, inr proxy)
        ],
        λ (f, inside, kind, which). elim which [
          | inl own ↦
              has-append_left (file_ids files) (proxy_ids trash_files chosen) i
                (rw⁻¹ own (select-has (λ f. not f.is_folder) files f inside (rw kind refl)))
          | inr (p, inp, proxy, at) ↦
              has-append_right (file_ids files) (proxy_ids trash_files chosen) i (
                rw⁻¹ at (
                  HasProxy-proxy_ids trash_files chosen f p
                    (In-select (λ (f : DriveFile). not f.is_folder) files f inside (rw kind refl))
                    inp proxy))
        ],
      )
  where
    not_true : (b : Bool) → not b ≡ true → b ≡ false
    not_true b h = ground arith

-- If a file has a proxy, and no file of the trash beside it has the legacy name of a proxy, then
-- trashItem sends the file and its proxy to the trash, but restoreItem and permanentDeleteItem send a
-- request for the file alone.
pub trash_item-alone :
    (files trash_files : List DriveFile) (file p : DriveFile)
    → file.is_folder ≡ false
    → find_first (is_proxy file) files ≡ some p
    → find_first (is_legacy_proxy file) trash_files ≡ none
    → (trash_item files file ≡ trash_file file.id ∷ trash_file p.id ∷ [])
      × (restore_item trash_files file ≡ restore_file file.id ∷ [])
      × (permanent_delete_item trash_files file ≡ hard_delete_file file.id ∷ [])
unfolding trash_item restore_item permanent_delete_item
trash_item-alone files trash_files file p kind found missing =
    (rw (kind, found) refl, rw (kind, missing) refl, rw (kind, missing) refl)
