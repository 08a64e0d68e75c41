-- ===== src/Bot.antt =====
-- internal/cmd/bot/serve.go: the schedules of the bot, with the two other makers of manifests,
-- those of internal/chatops/scan.go and internal/cmd/consumer/scan.go.
pub mod Messages
pub mod Dispatch
pub mod Run
pub mod Jobs
pub mod Serve
pub mod Startup
pub mod Schedules
pub mod Proposals
pub mod Gate
pub mod Soundness
use natsie.Base.{
  ℕ, ◌+◌, String, ◌<>◌, Bool, true, false, not, ◌&&◌, ◌||◌, List, [], ◌∷◌, Option, none, some, ◌==◌,
  ◌!=◌, Eq, string_eq, contains, if◌then◌else◌, map,
}
use natsie.Base.Int.{ℤ, pos}
use natsie.Base.Result.{Result, ok, err}
use natsie.Go.Time.{Time, Duration, hour, truncate_second}
use natsie.Manifest.{Manifest, Entry, version}
use natsie.Owners.{OwnerConfig}
use natsie.Scanner.Classify.{
  Status, active, stale, ok, absent, error, blank, Row, Options, status_eq,
}

-- `Schedule` of internal/infra/config/config.go.
pub record Schedule : Type 0 where
  pub name : String
  pub cron : String
  pub kind : String
  pub context : String
  pub peer_context : String
  pub stream : String
  pub min_pending : ℤ
  pub min_idle : Duration
  pub auto_delete : Bool

-- `Bot` of the same file: the part that the schedules use.
pub record Config : Type 0 where
  pub schedules : List Schedule
  pub notify : List String
  pub owners : List OwnerConfig
  pub store : String
  pub audit_log : String
  pub signing_key : String
  pub base_url : String

abbrev pub kind_consumer_stale : String
kind_consumer_stale = "consumer-stale"

abbrev pub kind_stream_unlimited : String
kind_stream_unlimited = "stream-unlimited"

abbrev pub kind_peer_check : String
kind_peer_check = "peer-check"

abbrev pub kind_stream_report : String
kind_stream_report = "stream-report"

abbrev pub kinds : List String
kinds = "" ∷ kind_consumer_stale ∷ kind_stream_unlimited ∷ kind_peer_check ∷ kind_stream_report ∷ []

pub data Error : Type 0 where
  no_schedules no_store no_notify : Error
  incomplete : ℕ → Error
  unknown_kind : ℕ → String → Error
  auto_delete_of : ℕ → String → Error

-- The loop of `validateBotConfig`, from an index on.
unfoldable pub validate_schedules : ℕ → List Schedule → Option Error
unfolding contains
validate_schedules i [] = none
validate_schedules i (s ∷ ss) =
    let rest = validate_schedules (i + 1) ss in
    if s.name == "" || s.cron == "" || s.context == ""
    then some (incomplete i)
    else if not (contains kinds s.kind)
    then some (unknown_kind i s.kind)
    else if s.auto_delete && s.kind != "" && s.kind != kind_consumer_stale
    then some (auto_delete_of i s.kind)
    else rest

-- `validateBotConfig`: the error, if there is one.
unfoldable pub validate : Config → Option Error
unfolding validate_schedules
validate b = elim b.schedules [
  | [] ↦ some no_schedules
  | _ ∷ _ ↦
      if b.store == ""
      then some no_store
      else elim b.notify [ [] ↦ some no_notify | _ ∷ _ ↦ validate_schedules 0 b.schedules ]
]

-- The texts of `Status`.
abbrev pub status_text : Status → String
status_text active = "ACTIVE"
status_text stale = "STALE"
status_text ok = "OK"
status_text absent = "ABSENT"
status_text error = "ERR"
status_text blank = ""

abbrev pub entry_of : Row → Entry
entry_of r = record {
  cluster = r.cluster;
  stream = r.stream;
  consumer = r.consumer;
  status = status_text r.status;
  peer_status = status_text r.peer_status;
  num_pending = r.num_pending;
  idle = truncate_second r.idle;
  last_ack = r.last_ack;
  reason = "";
  skip = false;
}

-- The loop of the bot's and the chat's manifest.
unfoldable pub stale_entries : List Row → List Entry
stale_entries [] = []
stale_entries (r ∷ rows) =
    let rest = stale_entries rows in if r.status != stale then rest else entry_of r ∷ rest

-- `buildManifest` of the bot; `short` is `version.Short()`.
unfoldable pub build_manifest : String → Time → Schedule → List Row → Manifest
unfolding stale_entries
build_manifest short now s rows = record {
  version = version;
  generated_at = now;
  generated_by = "natsie " <> short;
  scan = record {
    context = s.context;
    peer_context = s.peer_context;
    stream = s.stream;
    min_pending = s.min_pending;
    min_idle = s.min_idle;
  };
  entries = stale_entries rows;
}

-- `buildScanManifest` of the chat.
unfoldable pub build_scan_manifest : String → Time → String → Options → List Row → Manifest
unfolding stale_entries
build_scan_manifest short now ctx opts rows = record {
  version = version;
  generated_at = now;
  generated_by = "natsie " <> (short <> " (chat)");
  scan = record {
    context = ctx;
    peer_context = "";
    stream = opts.stream;
    min_pending = opts.min_pending;
    min_idle = opts.min_idle;
  };
  entries = stale_entries rows;
}

abbrev pub explained : Row → Entry
explained r =
    if r.renamed_to != ""
    then record (entry_of r) {
      reason = "likely renamed to " <> (r.renamed_to <> " (same filter subject)");
    }
    else entry_of r

-- The loop of the command line's manifest.
unfoldable pub unmanaged_entries : List Row → List Entry
unmanaged_entries [] = []
unmanaged_entries (r ∷ rows) =
    let rest = unmanaged_entries rows in
    if r.status != stale then rest else if r.managed != "" then rest else explained r ∷ rest

-- `buildManifest` of the command line.
unfoldable pub build_manifest_of_scan :
    String → Time → List Row → String → String → Options → Manifest
unfolding unmanaged_entries
build_manifest_of_scan short now rows ctx peer opts = record {
  version = version;
  generated_at = now;
  generated_by = "natsie " <> short;
  scan = record {
    context = ctx;
    peer_context = peer;
    stream = opts.stream;
    min_pending = opts.min_pending;
    min_idle = opts.min_idle;
  };
  entries = unmanaged_entries rows;
}
