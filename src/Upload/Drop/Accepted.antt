-- ===== src/Upload/Drop/Accepted.antt =====
-- What the reader lets through, the folder upload accepts.
use save_box.Prelude.{
  ◌≤◌, ◌≡◌, refl, sym, ap, ◌∙◌, Bool, true, false, not, Option, some, none, List, [], ◌∷◌, ◌++◌, ok,
  >>=-eq-ok, >>-eq-ok, arith, length, ltb,
}
use save_box.Session.Token.{Text}
use save_box.Upload.Paths.{SourceFile, text_eq, has_path}
use save_box.Upload.Drop.{
  DropError, FileRead, Listing, done, failed, file, folder, folder_without_reader, other, Reading,
  validate_path, read_file, child_path, enter, add_file, read_listing, read_directory, Entry, Item,
  Reader, read_item, read_items, insert, guard, directory_entry, file_entry, other_entry,
  duplicate_path, too_many_folders,
}

-- Valid paths that end with the file's name and are all different, from those that were seen on.
abbrev pub Accepted : List Text → List SourceFile → Type 0
Accepted seen [] = Unit
Accepted seen (f ∷ files) =
    (validate_path f.relative_path (some f.file_name) ≡ ok tt)
    × (has_path seen f.relative_path ≡ false)
    × Accepted (f.relative_path ∷ seen) files

abbrev pub paths_of : List SourceFile → List Text
paths_of [] = []
paths_of (f ∷ files) = f.relative_path ∷ paths_of files

pub record IsWell (r : Reading) : Type 0 where
  pub few : length r.folder_paths ≤ 1000
  pub listed : r.file_paths ≡ paths_of r.folders
  pub accepted : Accepted [] r.folders

Accepted-append :
    (files : List SourceFile) (seen : List Text) (f : SourceFile)
    → Accepted seen files
    → validate_path f.relative_path (some f.file_name) ≡ ok tt
    → has_path seen f.relative_path ≡ false
    → has_path (paths_of files) f.relative_path ≡ false
    → Accepted seen (files ++ f ∷ [])
Accepted-append [] seen f h valid new fresh = (valid, new, tt)
Accepted-append (g ∷ files) seen f (first, here, later) valid new fresh =
    let differs : text_eq f.relative_path g.relative_path ≡ false = ground arith in
    let rest : has_path (paths_of files) f.relative_path ≡ false = ground arith in
    let unseen : has_path (g.relative_path ∷ seen) f.relative_path ≡ false = rw differs new in
    (first, here, Accepted-append files (g.relative_path ∷ seen) f later valid unseen rest)

paths_of-append :
    (files : List SourceFile) (f : SourceFile)
    → paths_of (files ++ f ∷ []) ≡ paths_of files ++ f.relative_path ∷ []
paths_of-append [] f = refl
paths_of-append (g ∷ files) f = ap (◌∷◌ g.relative_path) (paths_of-append files f)

guard-eq-ok : (b : Bool) (e : DropError) (u : Unit {0}) → guard b e ≡ ok u → b ≡ true
guard-eq-ok true e u h = refl
guard-eq-ok false e u h = cc

IsWell-enter : (path : Text) (r s : Reading) → enter path r ≡ ok s → IsWell r → IsWell s
unfolding enter
IsWell-enter path r s h w =
    let (_, _, h1) = >>-eq-ok (validate_path path none) _ h in
    let (u, passed, h2) =
      >>-eq-ok (guard (not (ltb 1000 (length (insert path r.folder_paths)))) too_many_folders) _
        h1 in
    let room = guard-eq-ok _ _ u passed in
    let well : IsWell (record r { folder_paths = insert path r.folder_paths }) = record {
      few = ground arith;
      listed = w.listed;
      accepted = w.accepted;
    } in
    let same : record r { folder_paths = insert path r.folder_paths } ≡ s = cc in rw⁻¹ same well

IsWell-add_file :
    (path : Text) (content : FileRead) (r s : Reading)
    → add_file path content r ≡ ok s
    → IsWell r
    → IsWell s
unfolding add_file
IsWell-add_file path content r s h w =
    let (name, named, h1) = >>=-eq-ok (read_file content) _ h in
    let (t, valid, h2) = >>-eq-ok (validate_path path (some name)) _ h1 in
    let (u, passed, h3) = >>-eq-ok (guard (not (has_path r.file_paths path)) duplicate_path) _ h2 in
    let new = guard-eq-ok _ _ u passed in
    let f : SourceFile = record { file_name = name; relative_path = path } in
    let fresh : has_path (paths_of r.folders) path ≡ false = rw⁻¹ (w.listed) (ground arith) in
    let next : Reading = record r {
      file_paths = r.file_paths ++ path ∷ [];
      folders = r.folders ++ f ∷ [];
    } in
    let well : IsWell next = record {
      few = w.few;
      listed = ap (λ ps. ps ++ path ∷ []) w.listed ∙ sym (paths_of-append r.folders f);
      accepted = Accepted-append r.folders [] f w.accepted valid refl fresh;
    } in
    let same : next ≡ s = cc in rw⁻¹ same well

IsWell-read_listing :
    (path : Text) (l : Listing) (r s : Reading) → read_listing path l r ≡ ok s → IsWell r → IsWell s
unfolding read_listing
IsWell-read_listing path done r s h w = let same : r ≡ s = cc in rw⁻¹ same w
IsWell-read_listing path (failed code) r s h w = cc
IsWell-read_listing path (file name content rest) r s h w =
    let (added, one, h1) = >>=-eq-ok (add_file (child_path path name) content r) _ h in
    IsWell-read_listing path rest added s h1
      (IsWell-add_file (child_path path name) content r added one w)
IsWell-read_listing path (folder name entries rest) r s h w =
    let (entered, one, h1) = >>=-eq-ok (enter (child_path path name) r) _ h in
    let (inner, two, h2) = >>=-eq-ok (read_listing (child_path path name) entries entered) _ h1 in
    IsWell-read_listing path rest inner s h2 (
      IsWell-read_listing (child_path path name) entries entered inner two
        (IsWell-enter (child_path path name) r entered one w))
IsWell-read_listing path (folder_without_reader name rest) r s h w =
    let (entered, one, h1) = >>=-eq-ok (enter (child_path path name) r) _ h in cc
IsWell-read_listing path (other name rest) r s h w = IsWell-read_listing path rest r s h w

IsWell-read_directory :
    (path : Text) (l : Option Listing) (r s : Reading)
    → read_directory path l r ≡ ok s
    → IsWell r
    → IsWell s
unfolding read_directory
IsWell-read_directory path none r s h w =
    let (entered, one, h1) = >>=-eq-ok (enter path r) _ h in cc
IsWell-read_directory path (some l) r s h w =
    let (entered, one, h1) = >>=-eq-ok (enter path r) _ h in
    IsWell-read_listing path l entered s h1 (IsWell-enter path r entered one w)

IsWell-read_item :
    (e : Option Entry) (as_file : Option Text) (r s : Reader)
    → read_item e as_file r ≡ ok s
    → IsWell r.reading
    → IsWell s.reading
unfolding read_item
IsWell-read_item (some (directory_entry name reader)) as_file r s h w =
    let (reading, one, h1) = >>=-eq-ok (read_directory name reader r.reading) _ h in
    let same : reading ≡ s.reading = cc in
    rw⁻¹ same (IsWell-read_directory name reader r.reading reading one w)
IsWell-read_item (some (file_entry content)) as_file r s h w =
    let (name, one, h1) = >>=-eq-ok (read_file content) _ h in
    let same : r.reading ≡ s.reading = cc in rw⁻¹ same w
IsWell-read_item (some other_entry) as_file r s h w =
    let same : r.reading ≡ s.reading = cc in rw⁻¹ same w
IsWell-read_item none (some name) r s h w = let same : r.reading ≡ s.reading = cc in rw⁻¹ same w
IsWell-read_item none none r s h w = let same : r.reading ≡ s.reading = cc in rw⁻¹ same w

pub IsWell-read_items :
    (items : List Item) (r s : Reader)
    → read_items items r ≡ ok s
    → IsWell r.reading
    → IsWell s.reading
unfolding read_items
IsWell-read_items [] r s h w = let same : r.reading ≡ s.reading = cc in rw⁻¹ same w
IsWell-read_items (i ∷ items) r s h w =
    let (next, one, h1) = >>=-eq-ok (read_item i.entry i.as_file r) _ h in
    IsWell-read_items items next s h1 (IsWell-read_item i.entry i.as_file r next one w)
