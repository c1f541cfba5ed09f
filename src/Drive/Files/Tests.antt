-- ===== src/Drive/Files/Tests.antt =====
-- A drive of three files and two folders.
use save_box.Prelude.{
  ℕ, ◌<◌, ◌≡◌, refl, sym, inl, inr, true, false, Bool, some, none, List, [], ◌∷◌, ◌++◌, map, String,
  Result, ok, take, drop, ◌==◌, arith, ==_iff, Bool-cases, if◌then◌else◌,
}
use save_box.Drive.Files.{
  DriveFile, FolderRow, FileRow, Page, FileType, parse_folder, parse_file, more_files, load_tree,
  re_decrypt_all, type_of_name, folder_at, ancestors, current_folder_files,
  current_trash_folder_files,
}
use save_box.Drive.Files.Paging.{load_tree-whole}

program : Unit {0}
unfolding parse_folder parse_file more_files load_tree re_decrypt_all type_of_name ancestors
    current_folder_files current_trash_folder_files
program = tt

abbrev rows : List FileRow
rows =
    (record {
      id = 1;
      encrypted_name = "a.PDF";
      size_bytes = 5;
      folder_id = none;
      is_hidden = false;
    })
    ∷ (record {
      id = 2;
      encrypted_name = "b.mkv";
      size_bytes = 6;
      folder_id = some 4;
      is_hidden = false;
    })
    ∷ (record {
      id = 3;
      encrypted_name = "b.mkv.proxy.mp4";
      size_bytes = 7;
      folder_id = some 4;
      is_hidden = true;
    })
    ∷ []

abbrev folders : List FolderRow
folders =
    (record { id = 4; encrypted_name = "x"; parent_id = none })
    ∷ (record { id = 5; encrypted_name = "y"; parent_id = some 4 })
    ∷ []

abbrev get_tree : ℕ → ℕ → Result ℕ Page
get_tree limit offset = ok (record { folders = folders; files = take limit (drop offset rows) })

abbrev plain : String → String
plain s = s

abbrev loaded : Bool → List DriveFile
loaded unlocked =
    map (parse_folder plain plain unlocked) folders ++ map (parse_file plain plain unlocked) rows

types :
    map (λ (f : DriveFile). f.file_type) (loaded true)
    ≡ FileType.folder ∷ FileType.folder ∷ FileType.unknown ∷ FileType.video ∷ FileType.video ∷ []
unfolding program
types = refl

listed : map (λ (f : DriveFile). f.id) (current_folder_files (loaded false) (some 4)) ≡ 5 ∷ 2 ∷ []
unfolding program
listed = refl

path_to : ancestors (loaded false) 9 (some 5) ≡ some (map (parse_folder plain plain false) folders)
unfolding program
path_to = refl

load_tree-whole_example : load_tree plain plain true get_tree 4 ≡ ok (loaded true)
load_tree-whole_example =
    load_tree-whole folders rows get_tree (λ limit offset. refl) plain plain true

-- Two folders, each in the other.
abbrev inside_out : List DriveFile
inside_out = map (parse_folder plain plain false) (
    (record { id = 4; encrypted_name = "x"; parent_id = some 5 })
    ∷ (record { id = 5; encrypted_name = "y"; parent_id = some 4 })
    ∷ [])

abbrev either_of : ℕ → Bool
either_of i = if i == 4 then true else i == 5

closed :
    (i : ℕ)
    → either_of i ≡ true
    → (f : DriveFile) × (j : ℕ) × (folder_at inside_out i ≡ some f)
      × (f.parent_id ≡ some j)
      × (either_of j ≡ true)
unfolding program
closed i h = elim (Bool-cases (i == 4)) [
  | inl four ↦
      let at : i ≡ 4 = (==_iff i 4).0 four in
      rw at (
        parse_folder plain plain false
            (record { id = 4; encrypted_name = "x"; parent_id = some 5 }),
        5,
        refl,
        refl,
        refl,
      )
  | inr other ↦
      let at : i ≡ 5 = (==_iff i 5).0 (rw other at h) in
      rw at (
        parse_folder plain plain false
            (record { id = 5; encrypted_name = "y"; parent_id = some 4 }),
        4,
        refl,
        refl,
        refl,
      )
]

abbrev rank : ℕ → ℕ
rank i = if i == 5 then 1 else 0

lower :
    (i j : ℕ) (f : DriveFile)
    → folder_at (loaded false) i ≡ some f
    → f.parent_id ≡ some j
    → rank j < rank i
unfolding program
lower i j f found above = elim (Bool-cases (5 == i)) [
  | inl five ↦
      let at : i ≡ 5 = sym ((==_iff 5 i).0 five) in
      let same : some y_folder ≡ some f = rw at at found in
      let parent : j ≡ 4 = cc in rw (parent, at) (omega arith)
  | inr not_five ↦ elim (Bool-cases (4 == i)) [
    | inl four ↦
        let at : i ≡ 4 = sym ((==_iff 4 i).0 four) in
        let same : some x_folder ≡ some f = rw at at found in cc
    | inr not_four ↦ cc (rw (not_five, not_four, folder_at) at found)
  ]
]
  where
    x_folder : DriveFile
    x_folder =
        parse_folder plain plain false (record { id = 4; encrypted_name = "x"; parent_id = none })

    y_folder : DriveFile
    y_folder =
        parse_folder plain plain false (record { id = 5; encrypted_name = "y"; parent_id = some 4 })
