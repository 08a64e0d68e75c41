-- ===== src/Manifest.antt =====
-- internal/manifest/manifest.go: the document between scan and apply. YAML is a parameter.
pub mod RoundTrip
use natsie.Base.{String, Bool, true, false, List, ◌==◌, string_eq, if◌then◌else◌}
use natsie.Base.Int.{ℤ}
use natsie.Base.Result.{Result, ok, err}
use natsie.Go.Time.{Time, Duration}
use natsie.Go.Os.{Fs, OsError, not_exist, read_file, write_file, stat}

-- `Version`
abbrev pub version : String
version = "natsie/v1"

pub record ScanInfo : Type 0 where
  pub context : String
  pub peer_context : String
  pub stream : String
  pub min_pending : ℤ
  pub min_idle : Duration

pub record Entry : Type 0 where
  pub cluster : String
  pub stream : String
  pub consumer : String
  pub status : String
  pub peer_status : String
  pub num_pending : ℤ
  pub idle : Duration
  pub last_ack : Time
  pub reason : String
  pub skip : Bool

pub record Manifest : Type 0 where
  pub version : String
  pub generated_at : Time
  pub generated_by : String
  pub scan : ScanInfo
  pub entries : List Entry

pub data Error : Type 0 where
  unreadable : OsError → Error
  unparsable : String → Error
  unsupported_version : String → Error
  already_exists : String → Error
  unstatable : OsError → Error
  unmarshalable : String → Error
  unwritable : OsError → Error

-- `yaml.Marshal` and `yaml.Unmarshal` of gopkg.in/yaml.v3 at this type.
pub record Yaml : Type 0 where
  pub marshal : Manifest → Result String String
  pub unmarshal : String → Result String Manifest

module _ (yaml : Yaml) where
  unfoldable pub parse : String → Result Error Manifest
  parse text = elim (yaml.unmarshal text) [
    | err e ↦ err (unparsable e)
    | ok m ↦ if m.version == version then ok m else err (unsupported_version m.version)
  ]

  -- `Read`
  unfoldable pub read : Fs → String → Result Error Manifest
  read fs path = elim (read_file fs path) [ err e ↦ err (unreadable e) | ok text ↦ parse text ]

  -- `ReadFrom`; the reader gives its text or fails.
  unfoldable pub read_from : Result OsError String → Result Error Manifest
  read_from (err e) = err (unreadable e)
  read_from (ok text) = parse text

  marshal_to : Fs → String → Manifest → Result Error (Unit {0}) × Fs
  marshal_to fs path m = elim (yaml.marshal m) [
    | err e ↦ (err (unmarshalable e), fs)
    | ok text ↦
        let (r, fs') = write_file fs path text in
        elim r [ err e ↦ (err (unwritable e), fs') | ok _ ↦ (ok tt, fs') ]
  ]

  -- `Write`
  unfoldable pub write : Fs → String → Manifest → Bool → Result Error (Unit {0}) × Fs
  unfolding marshal_to
  write fs path m true = marshal_to fs path m
  write fs path m false = elim (stat fs path) [
    | ok _ ↦ (err (already_exists path), fs)
    | err not_exist ↦ marshal_to fs path m
    | err e ↦ (err (unstatable e), fs)
  ]
