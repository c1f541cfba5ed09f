-- ===== src/Upload/Paths/Safe.antt =====
-- What an accepted path of a dropped folder cannot be.
use save_box.Prelude.{
  ℕ, ◌≤◌, ◌≡◌, ◌≢◌, refl, ap, true, false, Option, some, none, List, [], ◌∷◌, ok, ◌>>=◌, length,
  ◌==◌, ==_iff, ltb, ltb→le, arith, >>=-eq-ok, Bool-cases, inl, inr,
}
use save_box.Session.Token.{Text}
use save_box.Upload.Paths.{
  SourceFile, UploadFile, text_eq, is_separator, split_path, segments_of, is_special, any_special,
  last, is_named, join, has_path, parse_source, parse_sources, parse_directory_sources,
  folder_tree_depth_limit,
}

pub text_eq_refl : (s : Text) → text_eq s s ≡ true
text_eq_refl [] = refl
text_eq_refl (c ∷ s) = rw ((==_iff c c).1 refl) (text_eq_refl s)

pub text_eq→eq : (s t : Text) → text_eq s t ≡ true → s ≡ t
text_eq→eq [] [] h = refl
text_eq→eq [] (d ∷ t) h = cc
text_eq→eq (c ∷ s) [] h = cc
text_eq→eq (c ∷ s) (d ∷ t) h = elim (Bool-cases (c == d)) [
  | inl same ↦ cc (text_eq→eq s t (rw same at h), (==_iff c d).0 same)
  | inr other ↦ cc (rw other at h)
]

-- Neither empty nor a step to the same or the parent folder.
abbrev pub IsName : Text → Type 0
IsName s = (s ≢ []) × (s ≢ 46 ∷ []) × (s ≢ 46 ∷ 46 ∷ [])

abbrev pub AreNames : List Text → Type 0
AreNames [] = Unit
AreNames (s ∷ ss) = IsName s × AreNames ss

abbrev pub IsWhole : Text → Type 0
IsWhole [] = Unit
IsWhole (c ∷ s) = (is_separator c ≡ false) × IsWhole s

abbrev pub AreWhole : List Text → Type 0
AreWhole [] = Unit
AreWhole (s ∷ ss) = IsWhole s × AreWhole ss

-- The files of one selection, after the normalised paths that were seen.
abbrev pub AreSafe : ℕ → List Text → List UploadFile → Type 0
AreSafe max_depth paths [] = Unit
AreSafe max_depth paths (f ∷ files) =
    AreNames f.segments
    × AreWhole f.segments
    × (last f.segments ≡ some f.file_name)
    × (length f.segments ≤ max_depth)
    × (has_path paths (join f.segments) ≡ false)
    × AreSafe max_depth (join f.segments ∷ paths) files

-- The files of a selection, each with its name and the segments of its path.
unfoldable pub uploads_of : List SourceFile → List UploadFile
uploads_of [] = []
uploads_of (f ∷ files) =
    record { file_name = f.file_name; segments = segments_of f.relative_path } ∷ uploads_of files

is_special-IsName : (s : Text) → is_special s ≡ false → IsName s
is_special-IsName s h = (λ e. cc (rw e at h), λ e. cc (rw e at h), λ e. cc (rw e at h))

any_special-AreNames : (ss : List Text) → any_special ss ≡ false → AreNames ss
any_special-AreNames [] h = tt
any_special-AreNames (s ∷ ss) h =
    let here : is_special s ≡ false = ground arith in
    let later : any_special ss ≡ false = ground arith in
    (is_special-IsName s here, any_special-AreNames ss later)

split_path-AreWhole : (path : Text) → IsWhole (split_path path).0 × AreWhole (split_path path).1
unfolding split_path
split_path-AreWhole [] = (tt, tt)
split_path-AreWhole (c ∷ path) =
    let (first, rest) = split_path-AreWhole path in
    elim (Bool-cases (is_separator c)) [
      | inl cut ↦ rw cut (tt, (first, rest))
      | inr on ↦ rw on ((on, first), rest)
    ]

is_named-eq : (s : Option Text) (name : Text) → is_named s name ≡ true → s ≡ some name
is_named-eq none name h = cc
is_named-eq (some s) name h = ap some (text_eq→eq s name h)

parse_source-ok :
    (max_depth : ℕ) (paths : List Text) (source : SourceFile) (f : UploadFile)
    → parse_source max_depth paths source ≡ ok f
    → (f.file_name ≡ source.file_name)
      × (f.segments ≡ segments_of source.relative_path)
      × (any_special f.segments ≡ false)
      × (is_named (last f.segments) f.file_name ≡ true)
      × (ltb max_depth (length f.segments) ≡ false)
      × (has_path paths (join f.segments) ≡ false)
unfolding parse_source
parse_source-ok max_depth paths source f h = ground arith

segments_of-AreWhole : (path : Text) → AreWhole (segments_of path)
unfolding segments_of
segments_of-AreWhole path = split_path-AreWhole path

parse_sources-AreSafe :
    (max_depth : ℕ) (paths : List Text) (sources : List SourceFile) (files : List UploadFile)
    → parse_sources max_depth paths sources ≡ ok files
    → AreSafe max_depth paths files × (files ≡ uploads_of sources)
unfolding parse_sources uploads_of
parse_sources-AreSafe max_depth paths [] files h =
    let none_left : files ≡ [] = cc in rw none_left (tt, refl)
parse_sources-AreSafe max_depth paths (source ∷ sources) files h =
    let (f, parsed, h') =
      >>=-eq-ok (parse_source max_depth paths source)
        (λ file.
          parse_sources max_depth (join file.segments ∷ paths) sources
          >>= (λ files'. ok (file ∷ files')))
        h in
    let (rest, later, done) =
      >>=-eq-ok (parse_sources max_depth (join f.segments ∷ paths) sources)
        (λ files'. ok (f ∷ files')) h' in
    let (name, cut, clean, named, shallow, new) = parse_source-ok max_depth paths source f parsed in
    let (safe, same) =
      parse_sources-AreSafe max_depth (join f.segments ∷ paths) sources rest later in
    let shape : files ≡ f ∷ rest = cc in
    rw shape (
      (
        any_special-AreNames f.segments clean,
        rw cut (segments_of-AreWhole source.relative_path),
        is_named-eq (last f.segments) f.file_name named,
        ltb→le _ _ shallow,
        new,
        safe,
      ),
      cc,
    )

-- If the paths of a selection are accepted, the result is its files, in order, each with its name and the
-- segments of its path; no segment is empty, `.` or `..` or holds a separator, the last one is the name of
-- the file, there are at most 128 of them, and no normalised path occurs twice.
pub parse_directory_sources-AreSafe :
    (sources : List SourceFile) (files : List UploadFile)
    → parse_directory_sources none sources ≡ ok files
    → AreSafe folder_tree_depth_limit [] files × (files ≡ uploads_of sources)
unfolding parse_directory_sources
parse_directory_sources-AreSafe sources files h = parse_sources-AreSafe 128 [] sources files h
