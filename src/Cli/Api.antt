-- ===== src/Cli/Api.antt =====
-- What the commands of the command line work with, and what they print. Writing tables and JSON is done
-- by libraries: a reply is the rows that are printed, and the cells of a table.
use natsie.Base.{
  ℕ, ◌-◌, String, ◌<>◌, Bool, List, [], ◌∷◌, ◌++◌, Option, none, some, ◌==◌, ◌!=◌, string_eq, map,
  if◌then◌else◌,
}
use natsie.Base.Result.{Result, ok, err}
use natsie.Cleanup
use natsie.Cleanup.{Event, Action, Outcome, summary}
use natsie.Cleanup.Nats.{Server, Session}
use natsie.Config
use natsie.Config.{Config}
use natsie.Go.Os.{OsError, Fs}
use natsie.Go.Strings.{count}
use natsie.Go.Time.{Time}
use natsie.Manifest
use natsie.Manifest.{Yaml}
use natsie.Natsctx
use natsie.Natsctx.{Host, Conn}
use natsie.Protect
use natsie.Scanner.Api.{JetStream, Retention}
use natsie.Scanner.Scan

pub data Error : Type 0 where
  bad_config : natsie.Config.Error → Error
  bad_protect : natsie.Protect.Error → Error
  not_connected : String → natsie.Natsctx.Error → Error
  no_peer : String → natsie.Natsctx.Error → Error
  no_manager : String → Error
  no_peer_manager : String → Error
  scan_failed : natsie.Scanner.Scan.Error → Error
  search_failed : String → Error
  not_listed : natsie.Natsctx.Error → Error
  no_contexts : Error
  not_written : natsie.Manifest.Error → Error
  not_read : natsie.Manifest.Error → Error
  apply_failed : String → Error
  unknown_format : String → Error
  usage : Error

-- What the commands take from outside: the configuration as it was loaded, the host that dials, whose
-- connections are those of `jsm.New`, `ctx.Err()` in the scans, YAML, `version.Short()`, the standard
-- input, the texts of jsm.go's retention policies, and the readings of the clock.
pub record Env : Type 0 where
  pub config : Result natsie.Config.Error Config
  pub host : Host (Result String JetStream)
  pub ctx : String → Option String
  pub search_ctx : String → String → Option String
  pub yaml : Yaml
  pub short : String
  pub stdin : Result OsError String
  pub retention_text : Retention → String
  pub now : Time
  pub written_at : Time
  pub deleted_at : Time

-- What a command reads and changes: the files, the clusters, and the lines on the standard error.
pub record World (S : Server) : Type 0 where
  pub fs : Fs
  pub session : Session S
  pub stderr : List String

abbrev pub say : {S : Server} → List String → World S → World S
say lines w = record w { stderr = w.stderr ++ lines }

-- The texts of `Action`.
unfoldable pub action_text : Action → String
action_text natsie.Cleanup.deleted = "DELETED"
action_text natsie.Cleanup.would = "WOULD"
action_text natsie.Cleanup.gone = "GONE"
action_text natsie.Cleanup.skip = "SKIP"
action_text natsie.Cleanup.active = "ACTIVE"
action_text natsie.Cleanup.protect = "PROTECTED"
action_text natsie.Cleanup.failed = "FAIL"
action_text natsie.Cleanup.conn_fail = "CONN"

unfoldable pub spaces : ℕ → String
spaces natsie.Base.zero = ""
spaces (natsie.Base.suc n) = " " <> spaces n

-- `%-7s`
abbrev pub padded : String → String
padded s = s <> spaces (7 - count s)

-- `logEvent`
unfoldable pub event_line : Event → String
unfolding action_text spaces
event_line ev =
    let tag = ev.target.cluster <> (" | " <> (ev.target.stream <> ("/" <> ev.target.consumer))) in
    let more = if ev.detail != "" then " (" <> (ev.detail <> ")\n") else "\n" in
    padded (action_text ev.action) <> (" " <> (tag <> more))

-- What the callers of `Apply` print of its result.
unfoldable pub outcome_lines : Outcome → List String
unfolding event_line
outcome_lines r = map event_line r.events ++ (("\nsummary: " <> (summary r <> "\n")) ∷ [])

-- A reply in one of the formats.
pub data Printed (A : Type 0) : Type 0 where
  as_json : List A → Printed A
  as_table : List (List String) → Printed A
  as_pretty : List A → Printed A

-- The format of the flag, of the configuration, or the table.
unfoldable pub format_of : String → Config → String
format_of flag cfg =
    if flag != "" then flag else if cfg.defaults.format != "" then cfg.defaults.format else "tsv"

-- The switch over the formats that every command ends in.
unfoldable pub render :
    {A : Type 0} → List String → (A → List String) → String → List A → Result Error (Printed A)
render header cells format rows =
    if format == "json"
    then ok (as_json rows)
    else if format == "tsv"
    then ok (as_table (header ∷ map cells rows))
    else if format == "pretty"
    then ok (as_pretty rows)
    else err (unknown_format format)

-- `jsm.New` on a connection.
unfoldable pub manager_in : Conn (Result String JetStream) → Result Error JetStream
manager_in nc = elim nc.conn [
  | err e ↦ err (no_manager e)
  | ok js ↦ ok (record js { name = nc.name })
]

-- The connection to a context, and its manager.
unfoldable pub manager_of : Env → Fs → String → Result Error JetStream
unfolding manager_in
manager_of env fs ctx = elim (natsie.Natsctx.connect env.host fs ctx) [
  | err e ↦ err (not_connected ctx e)
  | ok nc ↦ manager_in nc
]
