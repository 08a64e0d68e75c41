-- ===== src/Protect.antt =====
-- internal/protect/protect.go: which consumers are never deleted, because something else owns them.
pub mod Rules
use natsie.Base.{
  ℕ, ◌+◌, String, ◌<>◌, Bool, true, false, not, ◌&&◌, List, [], ◌∷◌, ◌++◌, Option, none, some, ◌==◌,
  contains, string_eq, if◌then◌else◌,
}
use natsie.Base.Result.{Result, ok, err, ◌>>=◌, ◌>>◌}
use natsie.Go.Path
use natsie.Go.Strings.{trim_space, to_lower}

-- `DefaultMetadataKey`
abbrev pub default_metadata_key : String
default_metadata_key = "natsie.io/managed"

pub record Pattern : Type 0 where
  pub stream : String
  pub consumer : String

pub record Config : Type 0 where
  pub metadata_keys : List String
  pub patterns : List Pattern

pub record Protector : Type 0 where
  pub keys : List String
  pub patterns : List Pattern

-- The two errors of `New`, with the index of the pattern.
pub data Error : Type 0 where
  needs_one : ℕ → Error
  bad_glob : ℕ → String → Error

-- A consumer's metadata, a Go map: the first pair of a key counts.
abbrev pub Metadata : Type 0
Metadata = List (String × String)

unfoldable pub lookup : String → Metadata → Option String
lookup k [] = none
lookup k ((j, v) ∷ m) = if j == k then some v else lookup k m

-- The loop over `cfg.MetadataKeys`.
add_keys : List String → List String → List String
add_keys keys [] = keys
add_keys keys (raw ∷ rest) =
    let k = trim_space raw in
    add_keys (if k == "" then keys else if contains keys k then keys else keys ++ (k ∷ [])) rest

abbrev check_glob : ℕ → String → Result Error (Unit {0})
check_glob i g =
    if g == "" then ok tt else elim (Path.match g "") [ none ↦ err (bad_glob i g) | some _ ↦ ok tt ]

abbrev check_pattern : ℕ → Pattern → Result Error (Unit {0})
check_pattern i p =
    if p.stream == "" && p.consumer == ""
    then err (needs_one i)
    else (check_glob i p.stream >> check_glob i p.consumer)

-- The loop over `cfg.Patterns`.
check_patterns : ℕ → List Pattern → Result Error (Unit {0})
check_patterns i [] = ok tt
check_patterns i (p ∷ ps) = let rest = check_patterns (i + 1) ps in (check_pattern i p >> rest)

-- `New`
unfoldable pub new : Config → Result Error Protector
unfolding add_keys check_patterns
new cfg = do
  check_patterns 0 cfg.patterns
  ok (record {
    keys = add_keys (default_metadata_key ∷ []) cfg.metadata_keys;
    patterns = cfg.patterns;
  })

abbrev pub falsey : List String
falsey = "false" ∷ "no" ∷ "0" ∷ "off" ∷ []

-- `Pattern.String`
unfoldable pub pattern_string : Pattern → String
pattern_string p =
    (if p.stream == "" then "*" else p.stream)
    <> "/"
    <> (if p.consumer == "" then "*" else p.consumer)

unfoldable pub matches : String → String → Bool
matches glob name =
    if glob == "" then true else elim (Path.match glob name) [ none ↦ false | some b ↦ b ]

-- An empty key list, as the zero value has, stands for the default key.
unfoldable pub effective_keys : List String → List String
effective_keys [] = default_metadata_key ∷ []
effective_keys (k ∷ ks) = k ∷ ks

-- The value opts out of protection.
unfoldable pub opts_out : String → Bool
opts_out v = contains falsey (to_lower (trim_space v))

-- One round of the loop over the keys: the reason that it returns, if it does.
unfoldable pub key_reason : Metadata → String → Option String
key_reason meta k = elim (lookup k meta) [
  | none ↦ none
  | some v ↦
      if opts_out v then none else some ("declaratively managed (metadata " <> k <> "=" <> v <> ")")
]

keys_reason : Metadata → List String → Option String
keys_reason meta [] = none
keys_reason meta (k ∷ ks) = elim (key_reason meta k) [
  | some r ↦ some r
  | none ↦ keys_reason meta ks
]

unfoldable pub pattern_matches : String → String → Pattern → Bool
unfolding matches
pattern_matches stream consumer p = matches p.stream stream && matches p.consumer consumer

patterns_reason : String → String → List Pattern → String
patterns_reason stream consumer [] = ""
patterns_reason stream consumer (p ∷ ps) =
    if pattern_matches stream consumer p
    then "protected by pattern " <> pattern_string p
    else patterns_reason stream consumer ps

-- `(*Protector).Reason`; `none` is the nil protector.
unfoldable pub reason : Option Protector → String → String → Metadata → String
unfolding keys_reason patterns_reason
reason none stream consumer meta = ""
reason (some p) stream consumer meta = elim (keys_reason meta (effective_keys p.keys)) [
  | some r ↦ r
  | none ↦ patterns_reason stream consumer p.patterns
]

-- `(*Protector).Protected`
unfoldable pub protected : Option Protector → String → String → Metadata → Bool
protected p stream consumer meta = not (reason p stream consumer meta == "")
