-- ===== src/Chat/Api.antt =====
-- What the commands of internal/chatops work with: the connections, whose answers are functions of what
-- is asked, and what a command reads and changes.
use natsie.Base.{ℕ, String, ◌<>◌, Bool, List, Option}
use natsie.Base.Int.{ℤ}
use natsie.Base.Result.{Result}
use natsie.Audit.{AuditEvent, Trail, log}
use natsie.Go.Os.{Fs}
use natsie.Go.Time.{Time, Duration}
use natsie.Manifest
use natsie.Manifest.{Yaml}
use natsie.Natsctx.{Host}
use natsie.Scanner.Api.{JetStream}
use natsie.Scanner.Scan
use natsie.Store
use natsie.Store.{File}

-- The state of a stream; its counts are uint64, that of the consumers an int.
pub record State : Type 0 where
  pub msgs : ℕ
  pub bytes : ℕ
  pub first_seq : ℕ
  pub last_seq : ℕ
  pub consumers : ℕ

-- The configuration of a stream, with the texts of its enumerations.
pub record Config : Type 0 where
  pub retention : String
  pub storage : String
  pub discard : String
  pub replicas : ℤ
  pub max_age : Duration
  pub max_bytes : ℤ
  pub max_msgs : ℤ
  pub max_msg_size : ℤ
  pub max_msgs_per : ℤ
  pub max_consumers : ℤ
  pub duplicates : Duration
  pub subjects : List String

-- A replica of the group of a stream; none of the list is nil.
pub record Peer : Type 0 where
  pub name : String
  pub current : Bool
  pub active : Duration

pub record Group : Type 0 where
  pub leader : String
  pub replicas : List Peer

-- `api.StreamInfo`, without the configuration.
pub record Information : Type 0 where
  pub state : State
  pub cluster : Option Group

-- `api.ConsumerInfo`
pub record Consumer : Type 0 where
  pub push_bound : Bool
  pub num_pending : ℕ
  pub num_waiting : ℤ
  pub num_redelivered : ℤ
  pub last_acked : Option Time

-- `api.StoredMsg`, with the length of its data.
pub record Message : Type 0 where
  pub subject : String
  pub sequence : ℕ
  pub time : Time
  pub size : ℕ
  pub header : String

-- `jsm.Stream`
pub record Stream : Type 0 where
  pub config : Config
  pub state : Result String State
  pub information : Result String Information
  pub consumer_names : Result String (List String)
  pub load_consumer : String → Result String (Unit {0})
  pub latest_state : String → Result String Consumer
  pub last_for_subject : String → Result String Message
  pub read_message : ℕ → Result String Message

-- `jsm.Manager`; `scanned` is what the scanner reads through it.
pub record Manager : Type 0 where
  pub stream_names : Result String (List String)
  pub load_stream : String → Result String Stream
  pub scanned : JetStream

-- `nats.Conn`; `manager` is `jsm.New`, and `rtt` is the zero duration where its request fails.
pub record Nats : Type 0 where
  pub server_name : String
  pub server_version : String
  pub rtt : Duration
  pub servers : List String
  pub discovered : List String
  pub connected_url : String
  pub manager : Result String Manager

-- `Deps`, without the audit log, and what the commands take from outside: the documents, the MAC of the
-- approval links, `version.Short()`, and `ctx.Err()` at each stream of a scan.
pub record Deps : Type 0 where
  pub store : File
  pub base_url : String
  pub signing_key : String
  pub host : Host Nats
  pub yaml : Yaml
  pub mac : String → String → String
  pub short : String
  pub ctx : String → Option String

-- The readings of the clock: of the scan or the ages of a reply, of the manifest, and of its id.
pub record Clock : Type 0 where
  pub now : Time
  pub generated : Time
  pub stamped : Time

pub record World : Type 0 where
  pub fs : Fs
  pub audit : Trail

abbrev pub log_event : AuditEvent → World → World
log_event ev w = record w { audit = log ev w.audit }

module _ (d : Deps) where
  -- The texts of the errors of internal/manifest/manifest.go, for a path.
  unfoldable pub manifest_text : String → natsie.Manifest.Error → String
  manifest_text path (natsie.Manifest.unreadable e) =
      "read manifest " <> (path <> (": " <> d.host.os_text path e))
  manifest_text path (natsie.Manifest.unparsable e) = "parse manifest " <> (path <> (": " <> e))
  manifest_text path (natsie.Manifest.unsupported_version v) =
      "unsupported manifest version "
      <> (d.host.quote v
          <> (" in " <> (path <> (" (want " <> (d.host.quote natsie.Manifest.version <> ")")))))
  manifest_text path (natsie.Manifest.already_exists p) =
      p <> " already exists (use --force to overwrite)"
  manifest_text path (natsie.Manifest.unstatable e) = d.host.os_text path e
  manifest_text path (natsie.Manifest.unmarshalable e) = "marshal manifest: " <> e
  manifest_text path (natsie.Manifest.unwritable e) =
      "write manifest " <> (path <> (": " <> d.host.os_text path e))

  -- Those of internal/infra/store/file.go, for an id.
  unfoldable pub store_text : String → natsie.Store.Error → String
  unfolding manifest_text
  store_text id natsie.Store.empty_directory = "file store: empty directory"
  store_text id (natsie.Store.no_folder e) =
      "mkdir " <> (d.store.dir <> (": " <> d.host.os_text d.store.dir e))
  store_text id (natsie.Store.invalid_id i) =
      "invalid manifest id " <> (d.host.quote i <> " (allowed: [a-zA-Z0-9][a-zA-Z0-9._-]+)")
  store_text id (natsie.Store.of_manifest e) =
      manifest_text (d.store.dir <> ("/" <> (id <> natsie.Store.manifest_ext))) e
  store_text id (natsie.Store.not_removed e) =
      let path = d.store.dir <> ("/" <> (id <> natsie.Store.manifest_ext)) in
      "remove " <> (path <> (": " <> d.host.os_text path e))
  store_text id (natsie.Store.not_listed e) =
      "read " <> (d.store.dir <> (": " <> d.host.os_text d.store.dir e))

-- Those of `Scan` in internal/scanner/scanner.go, behind its first.
unfoldable pub scan_text : natsie.Scanner.Scan.Error → String
scan_text (natsie.Scanner.Scan.stream_names e) = "stream names: " <> e
scan_text (natsie.Scanner.Scan.cancelled e) = e
