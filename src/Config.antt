-- ===== src/Config.antt =====
-- internal/infra/config/config.go: the configuration of the program. koanf, which parses the file and
-- merges it with the environment, is a parameter, and so are the environment and the home folder.
use Prim.Native.Char.{code}
use Prim.Native.String.{[], ◌∷◌}
use natsie.Base.{
  ◌*◌, String, ◌<>◌, Bool, false, not, ◌&&◌, List, ◌==◌, ◌!=◌, string_eq, ℕ_eq, if◌then◌else◌, ◌≡◌,
  refl,
}
use natsie.Base.Int.{ℤ, pos}
use natsie.Base.Result.{Result, ok, err}
use natsie.Go.Os.{OsError, not_exist}
use natsie.Go.Strings.{to_lower, trim_prefix, has_prefix, drop_prefix}
use natsie.Go.Time.{Duration, hour}
use natsie.Bot
use natsie.Protect

-- `Defaults`
pub record Defaults : Type 0 where
  pub min_pending : ℤ
  pub min_idle : Duration
  pub format : String

-- `Config`; a context is its name with its peer.
pub record Config : Type 0 where
  pub defaults : Defaults
  pub contexts : List (String × String)
  pub protect : natsie.Protect.Config
  pub bot : natsie.Bot.Config

pub data FileError : Type 0 where
  unreadable : OsError → FileError
  unparsable : String → FileError

-- koanf: a tree of settings, from a file and from pairs of keys and values, put over a configuration.
pub record Koanf : Type 1 where
  pub Tree : Type 0
  pub empty : Tree
  pub load_file : Tree → String → Result FileError Tree
  pub load_pairs : Tree → List (String × String) → Result String Tree
  pub unmarshal : Tree → Config → Result String Config

-- The environment, and what `os.UserHomeDir` gives.
pub record Environment : Type 0 where
  pub config_path : String
  pub home : Result String String
  pub variables : List (String × String)

pub data Error : Type 0 where
  no_file : String → FileError → Error
  no_environment : String → Error
  no_config : String → Error

-- `strings.ReplaceAll(s, "__", ".")`; `waiting` says that an underscore was read and not yet written.
unfoldable pub dotted_from : Bool → String → String
unfolding ℕ_eq
dotted_from waiting [] = if waiting then "_" else ""
dotted_from waiting (c ∷ s) =
    let underscore = code c == b'_' in
    let rest = dotted_from (underscore && not waiting) s in
    if underscore
    then (if waiting then "." <> rest else rest)
    else if waiting
    then "_" <> (c ∷ rest)
    else c ∷ rest

-- The key of a variable.
unfoldable pub env_key : String → String
unfolding dotted_from
env_key key = dotted_from false (to_lower (trim_prefix key "NATSIE_"))

a_nested_key : env_key "NATSIE_BOT__SIGNING_KEY" ≡ "bot.signing_key"
unfolding env_key to_lower trim_prefix has_prefix drop_prefix ℕ_eq
a_nested_key = refl

-- `defaultPath`
unfoldable pub default_path : Environment → String
default_path env =
    if env.config_path != ""
    then env.config_path
    else elim env.home [ err _ ↦ "" | ok home ↦ home <> "/.config/natsie/config.yaml" ]

unfoldable pub env_pairs : List (String × String) → List (String × String)
unfolding env_key
env_pairs List.[] = List.[]
env_pairs (List.◌∷◌ (key, value) vs) = List.◌∷◌ (env_key key, value) (env_pairs vs)

module _ (k : Koanf) where
  -- The file, if there is one.
  unfoldable pub load_file : String → Result Error k.Tree
  load_file path = if path == "" then ok k.empty else elim (k.load_file k.empty path) [
    | ok t ↦ ok t
    | err (unreadable not_exist) ↦ ok k.empty
    | err e ↦ err (no_file path e)
  ]

  -- `Load`; `zero` is the configuration with nothing set. The variables are those with the prefix.
  unfoldable pub load : Environment → Config → String → Result Error Config
  unfolding load_file default_path env_pairs
  load env zero path =
      let file = if path == "" then default_path env else path in
      elim (load_file file) [
        | err e ↦ err e
        | ok t ↦ elim (k.load_pairs t (env_pairs env.variables)) [
          | err e ↦ err (no_environment e)
          | ok t' ↦
              elim (k.unmarshal t' (record zero {
                defaults = record {
                  min_pending = pos 0;
                  min_idle = pos (24 * hour);
                  format = "tsv";
                };
              })) [ err e ↦ err (no_config e) | ok cfg ↦ ok cfg ]
        ]
      ]
