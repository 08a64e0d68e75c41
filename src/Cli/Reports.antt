-- ===== src/Cli/Reports.antt =====
-- internal/cmd/consumer/owner.go, internal/cmd/peer/check.go and internal/cmd/stream/report.go: the
-- commands that only read.
use natsie.Base.{String, Bool, List, [], ◌∷◌, none, some, map, if◌then◌else◌}
use natsie.Base.Int.{ℤ, pos, leb_ℤ}
use natsie.Base.Result.{Result, ok, err}
use natsie.Bot.{status_text}
use natsie.Config.{Config}
use natsie.Go.Duration.{duration_string}
use natsie.Go.Os.{Fs}
use natsie.Go.Strings.{itoa, itoa_int, join}
use natsie.Go.Time.{Duration, truncate_second}
use natsie.Natsctx.{Conn, connect, list}
use natsie.Scanner.Api.{JetStream}
use natsie.Scanner.Classify.{Options}
use natsie.Scanner.Owner.{OwnerMatch, resolve_owner}
use natsie.Scanner.Peers.{PeerRow, Health, healthy, lagging, ghost, check_peers, ghost_peers}
use natsie.Scanner.StreamReport.{StreamReportRow, report_streams}
use natsie.Cli.Api.{
  Env, Error, bad_config, search_failed, not_listed, no_contexts, Printed, format_of, render,
  manager_of,
}

-- `contextNames`
unfoldable pub context_names : Env → Fs → List String → Result Error (List String)
context_names env fs (c ∷ cs) = ok (c ∷ cs)
context_names env fs [] = elim (list env.host fs) [
  | err e ↦ err (not_listed e)
  | ok infos ↦ ok (map (λ i. i.name) infos)
]

-- `connectAll`: the connections, and the contexts that cannot be reached.
unfoldable pub connect_all :
    Env → Fs → List String → List (Conn (Result String JetStream)) × List String
connect_all env fs [] = ([], [])
connect_all env fs (c ∷ cs) =
    let (conns, unreachable) = connect_all env fs cs in
    elim (connect env.host fs c) [
      | err _ ↦ (conns, c ∷ unreachable)
      | ok nc ↦ (nc ∷ conns, unreachable)
    ]

unfoldable pub owner_cells : OwnerMatch → List String
owner_cells m =
    m.cluster
    ∷ m.stream
    ∷ m.consumer
    ∷ status_text m.status
    ∷ itoa_int m.num_pending
    ∷ duration_string (truncate_second m.idle)
    ∷ []

abbrev owner_header : List String
owner_header = "cluster" ∷ "stream" ∷ "consumer" ∷ "status" ∷ "pending" ∷ "idle" ∷ []

abbrev owner_options : Config → Options
owner_options cfg = record {
  stream = "";
  min_pending = pos 0;
  min_idle = cfg.defaults.min_idle;
  protect = none;
}

-- The search of `consumer owner` over its contexts.
unfoldable pub resolved : Env → Fs → Config → List String → String → Result Error (List OwnerMatch)
unfolding connect_all
resolved env fs cfg names subject =
    let conns = (connect_all env fs names).0 in
    let (found, e) = resolve_owner conns env.now (owner_options cfg) env.search_ctx subject in
    elim e [ some x ↦ err (search_failed x) | none ↦ ok found ]

-- The action of `consumer owner`: what it prints, without the warnings on unreachable contexts.
unfoldable pub owner_action :
    Env → Fs → String → List String → String → Result Error (Printed OwnerMatch)
unfolding context_names resolved owner_cells
owner_action env fs subject contexts format = elim env.config [
  | err e ↦ err (bad_config e)
  | ok cfg ↦ elim (context_names env fs contexts) [
    | err e ↦ err e
    | ok [] ↦ err no_contexts
    | ok (c ∷ cs) ↦ elim (resolved env fs cfg (c ∷ cs) subject) [
      | err e ↦ err e
      | ok matches ↦ render owner_header owner_cells (format_of format cfg) matches
    ]
  ]
]

unfoldable pub health_text : Health → String
health_text healthy = "OK"
health_text lagging = "LAGGING"
health_text ghost = "GHOST"

unfoldable pub peer_cells : PeerRow → List String
unfolding health_text
peer_cells r =
    r.peer
    ∷ health_text r.health
    ∷ itoa r.groups
    ∷ itoa r.offline
    ∷ itoa r.current
    ∷ itoa r.leads
    ∷ join r.sample ","
    ∷ []

abbrev peer_header : List String
peer_header = "peer" ∷ "health" ∷ "groups" ∷ "offline" ∷ "current" ∷ "leads" ∷ "sample" ∷ []

-- The action of `peer check`.
unfoldable pub check_action : Env → Fs → String → Bool → String → Result Error (Printed PeerRow)
unfolding peer_cells
check_action env fs ctx ghosts_only format = elim env.config [
  | err e ↦ err (bad_config e)
  | ok cfg ↦ elim (manager_of env fs ctx) [
    | err e ↦ err e
    | ok js ↦ elim (check_peers js env.ctx) [
      | err e ↦ err (search_failed e)
      | ok rows ↦
          render peer_header peer_cells (format_of format cfg)
            (if ghosts_only then ghost_peers rows else rows)
    ]
  ]
]

-- `fmtDuration`
unfoldable pub fmt_duration : Duration → String
fmt_duration d = if leb_ℤ d (pos 0) then "-" else duration_string d

-- `fmtLimit`
unfoldable pub fmt_limit : ℤ → String
fmt_limit n = if leb_ℤ n (pos 0) then "-" else itoa_int n

unfoldable pub stream_cells : Env → StreamReportRow → List String
unfolding fmt_duration fmt_limit
stream_cells env r =
    r.stream
    ∷ env.retention_text r.retention
    ∷ itoa_int r.replicas
    ∷ itoa r.messages
    ∷ itoa r.bytes
    ∷ fmt_duration r.max_age
    ∷ fmt_limit r.max_bytes
    ∷ fmt_limit r.max_msgs
    ∷ itoa r.consumers
    ∷ r.leader
    ∷ join r.peers ","
    ∷ []

abbrev stream_header : List String
stream_header =
    "stream" ∷ "retention" ∷ "R" ∷ "msgs" ∷ "bytes" ∷ "max_age" ∷ "max_bytes" ∷ "max_msgs"
    ∷ "consumers" ∷ "leader" ∷ "peers" ∷ []

-- The action of `stream report`.
unfoldable pub report_action :
    Env → Fs → String → String → String → Result Error (Printed StreamReportRow)
unfolding stream_cells
report_action env fs ctx stream format = elim env.config [
  | err e ↦ err (bad_config e)
  | ok cfg ↦ elim (manager_of env fs ctx) [
    | err e ↦ err e
    | ok js ↦
        let (rows, e) = report_streams js env.ctx stream in
        elim e [
          | some x ↦ err (search_failed x)
          | none ↦ render stream_header (stream_cells env) (format_of format cfg) rows
        ]
  ]
]
