-- ===== src/Go/Os.antt =====
-- Package os over a file system of paths. An operation on a path fails as the system has it fail:
-- `faults` holds the error of a path on which the operating system refuses to work.
pub mod Files
use natsie.Go.Strings.{has_prefix, drop_prefix, has_slash}
use natsie.Base.{
  ◌<>◌, Bool, true, false, not, ◌&&◌, ◌!=◌, String, List, [], ◌∷◌, Option, none, some, ◌==◌,
  string_eq, if◌then◌else◌,
}
use natsie.Base.Result.{Result, ok, err}

pub data OsError : Type 0 where
  not_exist : OsError
  is_folder : OsError
  refused : String → OsError

pub data Node : Type 0 where
  folder : Node
  file : String → Node

pub record Fs : Type 0 where
  pub nodes : List (String × Node)
  pub faults : String → Option String

unfoldable pub find : String → List (String × Node) → Option Node
find path [] = none
find path ((p, n) ∷ ns) = if p == path then some n else find path ns

unfoldable pub put : String → Node → List (String × Node) → List (String × Node)
put path n [] = (path, n) ∷ []
put path n ((p, m) ∷ ns) = if p == path then (path, n) ∷ ns else (p, m) ∷ put path n ns

unfoldable pub erase : String → List (String × Node) → List (String × Node)
erase path [] = []
erase path ((p, m) ∷ ns) = let rest = erase path ns in if p == path then rest else (p, m) ∷ rest

-- `os.Stat`
unfoldable pub stat : Fs → String → Result OsError Node
stat fs path = elim (fs.faults path) [
  | some e ↦ err (refused e)
  | none ↦ elim (find path fs.nodes) [ none ↦ err not_exist | some n ↦ ok n ]
]

-- `os.ReadFile`
unfoldable pub read_file : Fs → String → Result OsError String
read_file fs path = elim (stat fs path) [
  | err e ↦ err e
  | ok folder ↦ err is_folder
  | ok (file text) ↦ ok text
]

-- `os.WriteFile`
unfoldable pub write_file : Fs → String → String → Result OsError (Unit {0}) × Fs
write_file fs path text = elim (stat fs path) [
  | err (refused e) ↦ (err (refused e), fs)
  | ok folder ↦ (err is_folder, fs)
  | _ ↦ (ok tt, record fs { nodes = put path (file text) fs.nodes })
]

-- `os.Remove`; a folder is taken for one that is not empty.
unfoldable pub remove : Fs → String → Result OsError (Unit {0}) × Fs
remove fs path = elim (stat fs path) [
  | err e ↦ (err e, fs)
  | ok folder ↦ (err is_folder, fs)
  | ok (file _) ↦ (ok tt, record fs { nodes = erase path fs.nodes })
]

-- The entries of a folder: the names under it that go no deeper, and whether each is a folder.
unfoldable pub entries_of : String → List (String × Node) → List (String × Bool)
entries_of dir [] = []
entries_of dir ((p, n) ∷ ns) =
    let rest = entries_of dir ns in
    let name = drop_prefix p (dir <> "/") in
    if has_prefix p (dir <> "/") && name != "" && not (has_slash name)
    then (name, elim n [ folder ↦ true | file _ ↦ false ]) ∷ rest
    else rest

-- `os.ReadDir`
unfoldable pub read_dir : Fs → String → Result OsError (List (String × Bool))
unfolding entries_of
read_dir fs dir = elim (stat fs dir) [
  | err e ↦ err e
  | ok (file _) ↦ err (refused "not a directory")
  | ok folder ↦ ok (entries_of dir fs.nodes)
]

-- `os.MkdirAll`, whose parents are not kept apart.
unfoldable pub mkdir_all : Fs → String → Result OsError (Unit {0}) × Fs
mkdir_all fs dir = elim (stat fs dir) [
  | err (refused e) ↦ (err (refused e), fs)
  | ok folder ↦ (ok tt, fs)
  | ok (file _) ↦ (err (refused "not a directory"), fs)
  | err _ ↦ (ok tt, record fs { nodes = put dir folder fs.nodes })
]
