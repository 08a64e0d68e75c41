-- ===== src/Scanner/Peers.antt =====
-- internal/scanner/peers.go: the standing of each server over all Raft groups.
pub mod Entries
pub mod Counts
pub mod Verdict
use natsie.Base.{
  ℕ, ◌+◌, String, ◌<>◌, Bool, true, false, not, ◌&&◌, ◌||◌, List, [], ◌∷◌, ◌++◌, Option, none, some,
  ◌==◌, ◌!=◌, Eq, string_eq, ℕ_eq, bool_eq, ltb, if◌then◌else◌, map, keep, length,
}
use natsie.Base.Result.{Result, ok, err}
use natsie.Go.Sort.{sort_slice}
use natsie.Go.Strings.{less}
use natsie.Scanner.Api.{JetStream, PeerInfo, ClusterInfo, loaded}

-- `PeerHealth`
pub data Health : Type 0 where
  healthy lagging ghost : Health

pub record PeerRow : Type 0 where
  pub cluster : String
  pub peer : String
  pub health : Health
  pub groups : ℕ
  pub offline : ℕ
  pub current : ℕ
  pub leads : ℕ
  pub sample : List String

-- `raftGroup`
pub record Group : Type 0 where
  pub name : String
  pub leader : String
  pub replicas : List PeerInfo

abbrev pub max_peer_samples : ℕ
max_peer_samples = 5

-- `agg`
pub record Agg : Type 0 where
  pub groups : ℕ
  pub offline : ℕ
  pub current : ℕ
  pub leads : ℕ
  pub sample : List String

abbrev pub no_agg : Agg
no_agg = record { groups = 0; offline = 0; current = 0; leads = 0; sample = [] }

-- The map `byPeer`.
abbrev pub Aggs : Type 0
Aggs = List (String × Agg)

unfoldable pub lookup : String → Aggs → Option Agg
lookup p [] = none
lookup p ((q, a) ∷ m) = if q == p then some a else lookup p m

-- The change of the entry under a name, which is made if it is not there.
unfoldable pub update : String → (Agg → Agg) → Aggs → Aggs
update p f [] = (p, f no_agg) ∷ []
update p f ((q, a) ∷ m) = if q == p then (q, f a) ∷ m else (q, a) ∷ update p f m

-- `touch`
abbrev pub touched : String → Agg → Agg
touched group a = record a {
  groups = a.groups + 1;
  sample = if ltb (length a.sample) max_peer_samples then a.sample ++ (group ∷ []) else a.sample;
}

abbrev pub as_leader : String → Agg → Agg
as_leader group a =
    let b = touched group a in record b { leads = b.leads + 1; current = b.current + 1 }

abbrev pub as_replica : String → PeerInfo → Agg → Agg
as_replica group p a =
    let b = touched group a in
    record b {
      offline = if p.offline then b.offline + 1 else b.offline;
      current = if p.current then b.current + 1 else b.current;
    }

-- The loop over the replicas; the leader among them is left out.
unfoldable pub add_replicas : Group → List PeerInfo → Aggs → Aggs
add_replicas g [] m = m
add_replicas g (p ∷ ps) m =
    add_replicas g ps (if p.name == g.leader then m else update p.name (as_replica g.name p) m)

unfoldable pub add_group : Group → Aggs → Aggs
unfolding add_replicas
add_group g m =
    add_replicas g g.replicas (if g.leader != "" then update g.leader (as_leader g.name) m else m)

unfoldable pub add_groups : List Group → Aggs → Aggs
add_groups [] m = m
add_groups (g ∷ gs) m = add_groups gs (add_group g m)

-- `classifyPeer`
unfoldable pub classify_peer : ℕ → ℕ → ℕ → ℕ → Health
classify_peer groups offline current leads =
    if ltb 0 current || ltb 0 leads
    then healthy
    else if ltb 0 groups && offline == groups
    then ghost
    else lagging

Health-discrete : Discrete Health
Health-discrete = hlevel

instance unfoldable pub health_eq : Eq Health
unfolding Health-discrete
health_eq = record { dec = Health-discrete }

abbrev pub row_of : String → String × Agg → PeerRow
row_of cluster (p, a) = record {
  cluster = cluster;
  peer = p;
  health = classify_peer a.groups a.offline a.current a.leads;
  groups = a.groups;
  offline = a.offline;
  current = a.current;
  leads = a.leads;
  sample = a.sample;
}

-- The comparison of `sort.Slice`: ghosts first, then by name.
unfoldable pub less_row : PeerRow → PeerRow → Bool
less_row a b =
    if (a.health == ghost) == (b.health == ghost) then less a.peer b.peer else a.health == ghost

-- `aggregatePeers`. Go lists the map in some order; the sort makes the same list of any.
unfoldable pub aggregate_peers : String → List Group → List PeerRow
unfolding add_groups classify_peer less_row
aggregate_peers cluster groups = sort_slice less_row (map (row_of cluster) (add_groups groups []))

-- `GhostPeers`
unfoldable pub ghost_peers : List PeerRow → List PeerRow
ghost_peers rows = keep (λ r. r.health == ghost) rows

-- `derefPeers`
unfoldable pub deref_peers : List (Option PeerInfo) → List PeerInfo
deref_peers [] = []
deref_peers (none ∷ ps) = deref_peers ps
deref_peers (some p ∷ ps) = p ∷ deref_peers ps

abbrev group_of : String → Option ClusterInfo → List Group
group_of name none = []
group_of name (some ci) =
    record { name = name; leader = ci.leader; replicas = deref_peers ci.replicas } ∷ []

consumer_groups : JetStream → String → List String → List Group
consumer_groups js stream [] = []
consumer_groups js stream (c ∷ cs) =
    let rest = consumer_groups js stream cs in
    elim (js.load_consumer stream c) [
      | loaded ↦ group_of (stream <> "/" <> c) (js.consumer_cluster stream c) ++ rest
      | _ ↦ rest
    ]

-- The groups of one stream: its own and those of its consumers.
unfoldable pub stream_groups : JetStream → String → List Group
unfolding consumer_groups
stream_groups js stream = elim (js.load_stream stream) [
  | none ↦ []
  | some _ ↦
      group_of stream (js.stream_cluster stream)
      ++ (elim (js.consumer_names stream) [ none ↦ [] | some cs ↦ consumer_groups js stream cs ])
]

all_groups : JetStream → (String → Option String) → List String → Result String (List Group)
unfolding stream_groups
all_groups js ctx [] = ok []
all_groups js ctx (s ∷ names) =
    let rest = all_groups js ctx names in
    elim (ctx s) [
      | some e ↦ err e
      | none ↦ elim rest [ err e ↦ err e | ok gs ↦ ok (stream_groups js s ++ gs) ]
    ]

-- `CheckPeers`
unfoldable pub check_peers : JetStream → (String → Option String) → Result String (List PeerRow)
unfolding all_groups
check_peers js ctx = elim js.stream_names [
  | err e ↦ err e
  | ok names ↦ elim (all_groups js ctx names) [
    | err e ↦ err e
    | ok groups ↦ ok (aggregate_peers js.name groups)
  ]
]
