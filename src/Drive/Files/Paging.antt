-- ===== src/Drive/Files/Paging.antt =====
-- The loading of the files, page by page, before and after the vault is unlocked.
use mathlib.Core.Path.{ap₂}
use save_box.Prelude.{
  ℕ, zero, suc, ◌+◌, ◌-◌, ◌≤◌, ◌<◌, min, ◌≡◌, refl, sym, ap, ◌∙◌, ◌⊎◌, inl, inr, Bool, true, false,
  List, [], ◌∷◌, ◌++◌, map, String, Result, ok, ◌>>=◌, length, take, drop, length-take, length-drop,
  drop-drop, drop_all, take-append-drop-length, map-append, ==_iff, ◌==◌, Bool-cases, Result-cases,
  >>=-eq-ok, arith,
}
use save_box.Drive.Files.{
  DriveFile, FolderRow, FileRow, Page, Error, page_size, parse_folder, parse_file, more_files,
  load_tree, re_decrypted, re_decrypt_all,
}

apart : (a b : ℕ) → (a == b) ≡ false → a < b ⊎ b < a
apart a b h = ground arith

module _ (folders : List FolderRow) (all : List FileRow) (get_tree : ℕ → ℕ → Result ℕ Page)
    (honest : (limit offset : ℕ)
      → get_tree limit offset
        ≡ ok (record { folders = folders; files = take limit (drop offset all) })) where
  page_at : ℕ → List FileRow
  page_at offset = take page_size (drop offset all)

  length-page_at : (offset : ℕ) → length (page_at offset) ≡ min page_size (length all - offset)
  unfolding page_at
  length-page_at offset =
      length-take page_size (drop offset all) ∙ ap (min page_size) (length-drop offset all)

  -- After the page at an offset, the loop returns the files that follow it.
  more_files-drop :
      (fuel offset : ℕ)
      → length all - offset < fuel
      → more_files get_tree fuel (offset + length (page_at offset)) (page_at offset)
        ≡ ok (drop (offset + length (page_at offset)) all)
  unfolding more_files page_at
  more_files-drop zero offset enough = absurd (omega arith)
  more_files-drop (suc fuel) offset enough =
      elim (Bool-cases (length (page_at offset) == page_size)) [
        | inr part ↦
            let small : length all ≤ offset + length (page_at offset) =
              omega
                (arith, length-page_at offset, apart (length (page_at offset)) page_size part) in
            rw (part, more_files)
              (ap ok (sym (drop_all (offset + length (page_at offset)) all small)))
        | inl full ↦
            let next = offset + length (page_at offset) in
            let counted = length-page_at offset in
            let whole = (==_iff _ _).0 full in
            let rest = more_files-drop fuel next (omega (arith, counted, whole, enough)) in
            rw (full, more_files)
              (rw (honest page_size next, rest)
                (ap ok (
                  ap (λ (tail : List FileRow). page_at next ++ tail)
                    (sym (drop-drop next (length (page_at next)) all))
                  ∙ take-append-drop-length page_size (drop next all))))
      ]

  more_files-start :
      more_files get_tree (suc (length all)) (length (page_at 0)) (page_at 0)
      ≡ ok (drop (length (page_at 0)) all)
  more_files-start =
      let none_before : 0 + length (page_at 0) ≡ length (page_at 0) = omega arith in
      let after = more_files-drop (suc (length all)) 0 (omega arith) in rw none_before at after

  -- If the server answers each request for a part of its list of files with that part, then the loop ends,
  -- for any number of files, and the store holds the folders and the whole list, each file once.
  pub load_tree-whole :
      (lower shown : String → String) (unlocked : Bool)
      → load_tree lower shown unlocked get_tree (suc (length all))
        ≡ ok (
            map (parse_folder lower shown unlocked) folders
            ++ map (parse_file lower shown unlocked) all)
  unfolding load_tree page_at
  load_tree-whole lower shown unlocked =
      let joined = take-append-drop-length page_size all in
      let parsed = λ (rows : List FileRow).
        map (parse_folder lower shown unlocked) folders
        ++ map (parse_file lower shown unlocked) rows in
      rw (honest page_size 0, load_tree)
        (ap (λ (r : Result Error (List FileRow)). r >>= λ rows. ok (parsed (page_at 0 ++ rows)))
            more_files-start
          ∙ ap (λ (rows : List FileRow). ok (parsed rows)) joined)

abbrev Names : Type 0
Names = String → String

re_decrypted_folders :
    (lower shown : Names) (rows : List FolderRow)
    → map (re_decrypted lower shown) (map (parse_folder lower shown false) rows)
      ≡ map (parse_folder lower shown true) rows
unfolding parse_folder
re_decrypted_folders lower shown [] = refl
re_decrypted_folders lower shown (r ∷ rows) =
    ap (◌∷◌ (parse_folder lower shown true r)) (re_decrypted_folders lower shown rows)

re_decrypted_files :
    (lower shown : Names) (rows : List FileRow)
    → map (re_decrypted lower shown) (map (parse_file lower shown false) rows)
      ≡ map (parse_file lower shown true) rows
unfolding parse_file
re_decrypted_files lower shown [] = refl
re_decrypted_files lower shown (r ∷ rows) =
    ap (◌∷◌ (parse_file lower shown true r)) (re_decrypted_files lower shown rows)

-- Whatever the server answers, the files that are loaded while the vault is locked become, once they are
-- decrypted again with an unlocked vault, the files that are loaded with the vault unlocked.
pub re_decrypt_all-load_tree :
    (lower shown : String → String) (get_tree : ℕ → ℕ → Result ℕ Page) (fuel : ℕ)
    (files : List DriveFile)
    → load_tree lower shown false get_tree fuel ≡ ok files
    → load_tree lower shown true get_tree fuel ≡ ok (re_decrypt_all lower shown true files)
unfolding load_tree re_decrypt_all
re_decrypt_all-load_tree lower shown get_tree fuel files h =
    elim (Result-cases (get_tree page_size 0)) [
      | inr (status, failed_at) ↦ cc (rw (failed_at, load_tree) at h)
      | inl (page, came) ↦
          let (rest, loaded, made) =
            >>=-eq-ok (more_files get_tree fuel (length page.files) page.files) _
              (rw (came, load_tree) at h) in
          let at : map (parse_folder lower shown false) page.folders
                ++ map (parse_file lower shown false) (page.files ++ rest)
              ≡ files =
            cc in
          rw (came, load_tree)
            (rw loaded (
              ap ok (
                sym (
                  rw⁻¹ at (
                    map-append (re_decrypted lower shown)
                      (map (parse_folder lower shown false) page.folders) _
                    ∙ ap₂ ◌++◌ (re_decrypted_folders lower shown page.folders)
                        (re_decrypted_files lower shown (page.files ++ rest)))))))
    ]
