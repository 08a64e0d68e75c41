-- ===== src/Store.antt =====
-- internal/infra/store/file.go: manifests kept as files of a folder. The lock around a write or a
-- removal makes it one step.
pub mod Dial
pub mod Paths
pub mod Laws
pub mod Refinement
use Prim.Native.Char.{code}
use Prim.Native.String.{[], ◌∷◌}
use natsie.Base.{
  ℕ, String, ◌<>◌, Bool, true, false, not, ◌&&◌, ◌||◌, List, Option, none, some, ◌==◌, ◌!=◌, Eq,
  string_eq, ℕ_eq, leb, if◌then◌else◌,
}
use natsie.Base.Result.{Result, ok, err}
use natsie.Go.Os.{OsError, not_exist, Fs, remove, read_dir, mkdir_all}
use natsie.Go.Sort.{sort_slice}
use natsie.Go.Strings.{count, has_suffix, trim_suffix, less}
use natsie.Manifest.{Manifest, Yaml, read, write}

-- `[a-zA-Z0-9]`
unfoldable pub is_alphanumeric : ℕ → Bool
is_alphanumeric n = (leb 97 n && leb n 122) || (leb 65 n && leb n 90) || (leb 48 n && leb n 57)

-- `[a-zA-Z0-9._-]*` to the end of the text.
unfoldable pub id_rest : String → Bool
unfolding is_alphanumeric ℕ_eq
id_rest [] = true
id_rest (c ∷ s) =
    (is_alphanumeric (code c) || code c == 46 || code c == 95 || code c == 45) && id_rest s

-- `ValidID`
unfoldable pub valid_id : String → Bool
unfolding id_rest is_alphanumeric
valid_id [] = false
valid_id (c ∷ s) = is_alphanumeric (code c) && id_rest s && leb (count s) 127

abbrev pub manifest_ext : String
manifest_ext = ".yaml"

-- `File`: the folder in its clean form, as `filepath.Join` uses it.
pub record File : Type 0 where
  pub dir : String

pub data Error : Type 0 where
  empty_directory : Error
  no_folder : OsError → Error
  invalid_id : String → Error
  of_manifest : natsie.Manifest.Error → Error
  not_removed : OsError → Error
  not_listed : OsError → Error

-- `NewFile`
unfoldable pub new_file : Fs → String → Result Error File × Fs
new_file fs dir =
    if dir == ""
    then (err empty_directory, fs)
    else let (r, fs') = mkdir_all fs dir in
      elim r [ err e ↦ (err (no_folder e), fs') | ok _ ↦ (ok (record { dir = dir }), fs') ]

-- `(*File).path`
unfoldable pub path : File → String → Result Error String
path f id = if valid_id id then ok (f.dir <> ("/" <> (id <> manifest_ext))) else err (invalid_id id)

module _ (yaml : Yaml) where
  -- `(*File).Put`
  unfoldable pub put : File → Fs → String → Manifest → Result Error (Unit {0}) × Fs
  unfolding path
  put f fs id m = elim (path f id) [
    | err e ↦ (err e, fs)
    | ok p ↦
        let (r, fs') = write yaml fs p m true in
        elim r [ err e ↦ (err (of_manifest e), fs') | ok _ ↦ (ok tt, fs') ]
  ]

  -- `(*File).Get`
  unfoldable pub get : File → Fs → String → Result Error Manifest
  unfolding path
  get f fs id = elim (path f id) [
    | err e ↦ err e
    | ok p ↦ elim (read yaml fs p) [ err e ↦ err (of_manifest e) | ok m ↦ ok m ]
  ]

-- `(*File).Delete`
unfoldable pub delete : File → Fs → String → Result Error (Unit {0}) × Fs
unfolding path
delete f fs id = elim (path f id) [
  | err e ↦ (err e, fs)
  | ok p ↦
      let (r, fs') = remove fs p in
      elim r [
        | ok _ ↦ (ok tt, fs')
        | err not_exist ↦ (ok tt, fs')
        | err e ↦ (err (not_removed e), fs')
      ]
]

-- The loop of `List`.
unfoldable pub ids_of : List (String × Bool) → List String
ids_of List.[] = List.[]
ids_of (List.◌∷◌ (name, is_dir) es) =
    let rest = ids_of es in
    if is_dir
    then rest
    else if not (has_suffix name manifest_ext)
    then rest
    else List.◌∷◌ (trim_suffix name manifest_ext) rest

-- `(*File).List`
unfoldable pub list : File → Fs → Result Error (List String)
unfolding ids_of
list f fs = elim (read_dir fs f.dir) [
  | err e ↦ err (not_listed e)
  | ok entries ↦ ok (sort_slice less (ids_of entries))
]
