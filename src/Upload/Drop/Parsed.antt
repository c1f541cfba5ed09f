-- ===== src/Upload/Drop/Parsed.antt =====
-- A drop that the reader lets through, given to the folder upload.
use save_box.Prelude.{
  ℕ, ◌≡◌, refl, sym, ap, ◌∙◌, false, not, ◌&&◌, inl, inr, none, some, List, [], ◌∷◌, Result, ok,
  throw, ◌>>=◌, arith, ◌==◌, ==_iff, select, Bool-cases, if_keeps,
}
use mathlib.Core.Path.{ap₂, subst}
use save_box.Session.Token.{Text}
use save_box.Upload.Paths.Safe.{uploads_of}
use save_box.Upload.Paths.{
  SourceFile, contains, split_path, segments_of, join, has_path, is_empty, parse_source,
  parse_sources, parse_directory_sources,
}
use save_box.Upload.Drop.{
  validate_path, DropError, Item, DroppedItems, Reader, read_items, no_reading, finish_read,
  read as read_drop,
}
use save_box.Upload.Drop.Accepted.{Accepted, IsWell, IsWell-read_items}

join_cons :
    (c : ℕ) (first : Text) (rest : List Text) → join ((c ∷ first) ∷ rest) ≡ c ∷ join (first ∷ rest)
join_cons c first [] = refl
join_cons c first (t ∷ ss) = refl

-- Without a backslash, joining the segments gives the path back.
join-segments_of : (path : Text) → contains path 92 ≡ false → join (segments_of path) ≡ path
unfolding segments_of split_path
join-segments_of [] h = refl
join-segments_of (c ∷ path) h = elim (Bool-cases (c == 92)) [
  | inl back ↦ cc (rw back at h)
  | inr other ↦
      let ih = join-segments_of path (rw other at h) in
      elim (Bool-cases (c == 47)) [
        | inl slash ↦
            let same : c ≡ 47 = (==_iff c 47).0 slash in
            rw slash (ap₂ (λ (d : ℕ) (ds : Text). d ∷ ds) (sym same) ih)
        | inr plain ↦ rw (plain, other) (join_cons c _ _ ∙ ap (◌∷◌ c) ih)
      ]
]

abbrev pub ArePlain : List SourceFile → Type 0
ArePlain [] = Unit
ArePlain (f ∷ files) = (contains f.relative_path 92 ≡ false) × ArePlain files

parse_source-Accepted :
    (seen : List Text) (f : SourceFile)
    → validate_path f.relative_path (some f.file_name) ≡ ok tt
    → has_path seen (join (segments_of f.relative_path)) ≡ false
    → parse_source 128 seen f
      ≡ ok (record { file_name = f.file_name; segments = segments_of f.relative_path })
unfolding parse_source validate_path
parse_source-Accepted seen f valid new = ground arith

parse_sources-Accepted :
    (files : List SourceFile) (seen : List Text)
    → Accepted seen files
    → ArePlain files
    → parse_sources 128 seen files ≡ ok (uploads_of files)
unfolding parse_sources uploads_of
parse_sources-Accepted [] seen accepted plain = refl
parse_sources-Accepted (f ∷ files) seen (valid, new, later) (straight, plain) =
    let same = join-segments_of f.relative_path straight in
    let unseen : has_path seen (join (segments_of f.relative_path)) ≡ false = rw same new in
    let first = parse_source-Accepted seen f valid unseen in
    let behind : Accepted (join (segments_of f.relative_path) ∷ seen) files = rw same later in
    let rest =
      parse_sources-Accepted files (join (segments_of f.relative_path) ∷ seen) behind plain in
    rw first (rw rest refl)

-- What `read` returns, if it returns.
abbrev AreAccepted : Result DropError DroppedItems → Type 0
AreAccepted (throw e) = Unit
AreAccepted (ok d) = Accepted [] d.dropped_folders

AreAccepted-finish_read :
    (transferred : List Text) (s : Reader)
    → IsWell s.reading
    → AreAccepted (finish_read transferred s)
unfolding finish_read
AreAccepted-finish_read transferred s w =
    if_keeps AreAccepted
      (not s.used_entry_api && (is_empty s.read_files && not (is_empty transferred))) (λ _. tt)
      (λ _.
        if_keeps AreAccepted (not s.used_entry_api && (is_empty s.read_files && s.unreadable))
          (λ _. tt)
          (λ _.
            if_keeps AreAccepted (is_empty s.reading.folders && not (is_empty transferred))
              (λ _. tt) (λ _. w.accepted)))

AreAccepted-then :
    (r : Result DropError Reader) (transferred : List Text)
    → ((s : Reader) → r ≡ ok s → IsWell s.reading)
    → AreAccepted (r >>= (λ s. finish_read transferred s))
AreAccepted-then (throw e) transferred well = tt
AreAccepted-then (ok s) transferred well = AreAccepted-finish_read transferred s (well s refl)

AreAccepted-read :
    (items : List Item) (transferred : List Text) → AreAccepted (read_drop items transferred)
unfolding read_drop
AreAccepted-read items transferred =
    let wanted = select (λ (i : Item). i.is_file_kind) items in
    if_keeps AreAccepted (is_empty wanted) (λ _. tt)
      (λ _. AreAccepted-then (read_items wanted no_reading) transferred (λ s done.
        IsWell-read_items wanted no_reading s done
          (record { few = omega arith; listed = refl; accepted = tt })))

-- The files of dropped directories that the reader lets through are accepted by the folder upload, each with
-- the segments of its path, as long as no path holds a backslash: no path is invalid or too deep, and none
-- is a duplicate.
pub read-parse_directory_sources :
    (items : List Item) (transferred : List Text) (d : DroppedItems)
    → read_drop items transferred ≡ ok d
    → ArePlain d.dropped_folders
    → parse_directory_sources none d.dropped_folders ≡ ok (uploads_of d.dropped_folders)
unfolding parse_directory_sources
read-parse_directory_sources items transferred d h plain =
    let accepted : Accepted [] d.dropped_folders =
      subst AreAccepted h (AreAccepted-read items transferred) in
    parse_sources-Accepted d.dropped_folders [] accepted plain
