-- ===== src/Scanner/StreamReport.antt =====
-- internal/scanner/streamreport.go: size and placement of the streams, and the load of the servers.
pub mod Skew
pub mod Counts
use natsie.Base.{
  ℕ, ◌+◌, String, Bool, true, false, ◌&&◌, ◌||◌, List, [], ◌∷◌, ◌++◌, Option, none, some, ◌==◌,
  ◌!=◌, Eq, string_eq, ℕ_eq, ltb, if◌then◌else◌, map, keep,
}
use natsie.Base.Int.{ℤ, pos, ltb_ℤ}
use natsie.Base.Result.{Result, ok, err}
use natsie.Go.Sort.{sort_slice}
use natsie.Go.Strings.{less}
use natsie.Go.Time.{Duration}
use natsie.Scanner.Api.{JetStream, StreamConfig, Retention, PeerInfo, ClusterInfo}
use natsie.Scanner.Streams.{state_or_zero}

-- `StreamReportRow`
pub record StreamReportRow : Type 0 where
  pub cluster : String
  pub stream : String
  pub retention : Retention
  pub replicas : ℤ
  pub max_age : Duration
  pub max_bytes : ℤ
  pub max_msgs : ℤ
  pub messages : ℕ
  pub bytes : ℕ
  pub consumers : ℕ
  pub leader : String
  pub peers : List String

-- `ServerLoad`
pub record ServerLoad : Type 0 where
  pub server : String
  pub leads : ℕ
  pub replicas : ℕ

unfoldable pub replica_names : String → List (Option PeerInfo) → List String
replica_names leader [] = []
replica_names leader (none ∷ ps) = replica_names leader ps
replica_names leader (some p ∷ ps) =
    let rest = replica_names leader ps in
    if p.name != "" && p.name != leader then p.name ∷ rest else rest

-- `placementPeers`
unfoldable pub placement_peers : ClusterInfo → List String
unfolding replica_names
placement_peers ci =
    if ci.leader != ""
    then ci.leader ∷ replica_names ci.leader ci.replicas
    else replica_names ci.leader ci.replicas

-- The row of a stream that was loaded.
unfoldable pub report_row : JetStream → String → StreamConfig → StreamReportRow
unfolding placement_peers
report_row js stream cfg =
    let state = state_or_zero (js.stream_state stream) in
    let cluster = js.stream_cluster stream in
    record {
      cluster = js.name;
      stream = stream;
      retention = cfg.retention;
      replicas = cfg.replicas;
      max_age = cfg.max_age;
      max_bytes = cfg.max_bytes;
      max_msgs = cfg.max_msgs;
      messages = state.msgs;
      bytes = state.bytes;
      consumers = state.consumers;
      leader = elim cluster [ none ↦ "" | some ci ↦ ci.leader ];
      peers = elim cluster [ none ↦ [] | some ci ↦ placement_peers ci ];
    }

-- The loop of `ReportStreams`; `ctx` is what `ctx.Err()` says at each stream that is looked at.
unfoldable pub report_rows :
    JetStream
    → (String → Option String)
    → String
    → List String
    → List StreamReportRow × Option String
unfolding report_row
report_rows js ctx stream [] = ([], none)
report_rows js ctx stream (s ∷ names) =
    let rest = report_rows js ctx stream names in
    if stream != "" && s != stream then rest else elim (ctx s) [
      | some e ↦ ([], some e)
      | none ↦ elim (js.load_stream s) [
        | none ↦ rest
        | some cfg ↦ (report_row js s cfg ∷ rest.0, rest.1)
      ]
    ]

-- `ReportStreams`
unfoldable pub report_streams :
    JetStream → (String → Option String) → String → List StreamReportRow × Option String
unfolding report_rows
report_streams js ctx stream = elim js.stream_names [
  | err e ↦ ([], some e)
  | ok names ↦ report_rows js ctx stream names
]

abbrev pub under_replicated_threshold : ℕ
under_replicated_threshold = 2

-- `UnderReplicated`
unfoldable pub under_replicated : List StreamReportRow → List StreamReportRow
under_replicated rows = keep (λ r. ltb_ℤ r.replicas (pos under_replicated_threshold)) rows

-- The map `byServer`: leads and replicas of each server.
pub record Load : Type 0 where
  pub leads : ℕ
  pub replicas : ℕ

abbrev pub Loads : Type 0
Loads = List (String × Load)

abbrev pub no_load : Load
no_load = record { leads = 0; replicas = 0 }

unfoldable pub lookup : String → Loads → Load
lookup p [] = no_load
lookup p ((q, l) ∷ m) = if q == p then l else lookup p m

-- The entry is made if it is not there, then counts a replica, and a lead where it leads.
abbrev pub counted : Bool → Load → Load
counted is_leader l = record {
  leads = if is_leader then l.leads + 1 else l.leads;
  replicas = l.replicas + 1;
}

unfoldable pub add_replica : String → Bool → Loads → Loads
add_replica p is_leader [] = (p, counted is_leader no_load) ∷ []
add_replica p is_leader ((q, l) ∷ m) =
    let later = (q, l) ∷ add_replica p is_leader m in
    if q == p then (q, counted is_leader l) ∷ m else later

unfoldable pub add_peers : String → List String → Loads → Loads
unfolding add_replica
add_peers leader [] m = m
add_peers leader (p ∷ ps) m = add_peers leader ps (add_replica p (p == leader) m)

unfoldable pub add_rows : List StreamReportRow → Loads → Loads
unfolding add_peers
add_rows [] m = m
add_rows (r ∷ rs) m = add_rows rs (add_peers r.leader r.peers m)

-- The comparison of `sort.Slice`: most leads, most replicas, then the name.
unfoldable pub less_load : ServerLoad → ServerLoad → Bool
less_load a b =
    if a.leads != b.leads
    then ltb b.leads a.leads
    else if a.replicas != b.replicas
    then ltb b.replicas a.replicas
    else less a.server b.server

abbrev pub load_of : String × Load → ServerLoad
load_of (p, l) = record { server = p; leads = l.leads; replicas = l.replicas }

-- `PlacementSkew`. Go lists the map in some order; the sort makes the same list of any.
unfoldable pub placement_skew : List StreamReportRow → List ServerLoad
unfolding add_rows less_load
placement_skew rows = sort_slice less_load (map load_of (add_rows rows []))
