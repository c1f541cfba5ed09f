-- ===== src/Upload/Paths.antt =====
-- The paths of a dropped folder: `parseDirectorySources` of
-- frontend/src/app/features/drive/upload/folder-upload-tree.ts. A text is the list of its characters.
pub mod Safe
use save_box.Prelude.{
  ℕ, ◌+◌, Bool, true, false, not, ◌&&◌, ◌||◌, Option, some, none, List, [], ◌∷◌, ◌++◌, Result, ok,
  throw, ◌>>=◌, ◌>>◌, length, ◌==◌, leb, ltb, if◌then◌else◌,
}
use save_box.Session.Token.{Text}

pub data Error : Type 0 where
  invalid_path duplicate_path : Error

pub record SourceFile : Type 0 where
  pub file_name : Text
  pub relative_path : Text

pub record UploadFile : Type 0 where
  pub file_name : Text
  pub segments : List Text

abbrev pub folder_tree_depth_limit : ℕ
folder_tree_depth_limit = 128

abbrev pub text_eq : Text → Text → Bool
text_eq [] [] = true
text_eq [] (d ∷ ds) = false
text_eq (c ∷ cs) [] = false
text_eq (c ∷ cs) (d ∷ ds) = if c == d then text_eq cs ds else false

-- `/` and `\`
abbrev pub is_separator : ℕ → Bool
is_separator c = (c == 47) || (c == 92)

abbrev is_letter : ℕ → Bool
is_letter c = (leb 65 c && leb c 90) || (leb 97 c && leb c 122)

-- `/^[A-Za-z]:[\\/]/`
unfoldable pub starts_with_drive : Text → Bool
starts_with_drive (a ∷ b ∷ c ∷ cs) = is_letter a && ((b == 58) && is_separator c)
starts_with_drive _ = false

unfoldable pub starts_with_separator : Text → Bool
starts_with_separator [] = false
starts_with_separator (c ∷ cs) = is_separator c

abbrev pub contains : Text → ℕ → Bool
contains [] d = false
contains (c ∷ cs) d = if c == d then true else contains cs d

abbrev pub is_empty : {A : Type 0} → List A → Bool
is_empty [] = true
is_empty (x ∷ xs) = false

-- `split(/[\\/]/)`: the first part, and the others.
unfoldable pub split_path : Text → Text × List Text
split_path [] = ([], [])
split_path (c ∷ cs) =
    let (first, rest) = split_path cs in
    if is_separator c then ([], first ∷ rest) else (c ∷ first, rest)

unfoldable pub segments_of : Text → List Text
unfolding split_path
segments_of path = let (first, rest) = split_path path in first ∷ rest

-- Empty, `.` or `..`.
abbrev pub is_special : Text → Bool
is_special s = is_empty s || (text_eq s (46 ∷ []) || text_eq s (46 ∷ 46 ∷ []))

abbrev pub any_special : List Text → Bool
any_special [] = false
any_special (s ∷ ss) = is_special s || any_special ss

-- `segments.at(-1)`
abbrev pub last : List Text → Option Text
last [] = none
last (s ∷ []) = some s
last (s ∷ t ∷ ss) = last (t ∷ ss)

abbrev pub is_named : Option Text → Text → Bool
is_named none name = false
is_named (some s) name = text_eq s name

-- `segments.join('/')`
abbrev pub join : List Text → Text
join [] = []
join (s ∷ []) = s
join (s ∷ t ∷ ss) = s ++ 47 ∷ join (t ∷ ss)

abbrev pub has_path : List Text → Text → Bool
has_path [] p = false
has_path (q ∷ qs) p = if text_eq p q then true else has_path qs p

abbrev pub guard : Bool → Error → Result Error (Unit {0})
guard true e = ok tt
guard false e = throw e

unfoldable pub parse_source : ℕ → List Text → SourceFile → Result Error UploadFile
unfolding starts_with_separator starts_with_drive segments_of
parse_source max_depth paths source = do
  let path = source.relative_path
  guard
      (not (
        is_empty path
        || (starts_with_separator path || (starts_with_drive path || contains path 0))))
      invalid_path
  let segments = segments_of path
  guard (not (any_special segments)) invalid_path
  guard (is_named (last segments) source.file_name && not (ltb max_depth (length segments)))
      invalid_path
  guard (not (has_path paths (join segments))) duplicate_path
  ok (record { file_name = source.file_name; segments = segments })

-- The callback of `map`, with the normalised paths that it has seen.
unfoldable pub parse_sources : ℕ → List Text → List SourceFile → Result Error (List UploadFile)
unfolding parse_source
parse_sources max_depth paths [] = ok []
parse_sources max_depth paths (source ∷ sources) = do
  file ← parse_source max_depth paths source
  files ← parse_sources max_depth (join file.segments ∷ paths) sources
  ok (file ∷ files)

unfoldable pub parse_directory_sources : Option ℕ → List SourceFile → Result Error (List UploadFile)
unfolding parse_sources
parse_directory_sources none sources = parse_sources folder_tree_depth_limit [] sources
parse_directory_sources (some max_depth) sources = parse_sources max_depth [] sources
