-- ===== src/Scanner/Peers/Verdict.antt =====
-- What the rows of `aggregatePeers` say of the groups.
use natsie.Base.{
  ◌+◌, ◌≤◌, ◌<◌, String, Bool, not, ◌&&◌, List, [], ◌∷◌, ◌==◌, string_eq, ℕ_eq, map, length, All,
  In, All-at, subst, some, Option-cases, inl, inr, ◌≡◌, refl, arith, ◌↔◌,
}
use natsie.Go.Sort.{All-sort_slice, In-sort_slice, IsSorted, Follows, sort_slice-IsSorted}
use natsie.Scanner.Peers.{
  ghost, PeerRow, Group, Agg, Aggs, lookup, row_of, less_row, classify_peer, add_groups,
  aggregate_peers, health_eq, max_peer_samples,
}
use natsie.Scanner.Peers.Counts.{
  leads_of, replicas_of, any_replica, offline_replica, current_replica, AllCounted,
  add_groups-AllCounted, add_groups-Grown,
}

-- The row counts what the groups say of its peer.
pub record IsCounted (cluster : String) (gs : List Group) (r : PeerRow) : Type 0 where
  pub cluster_eq : r.cluster ≡ cluster
  pub groups_eq : r.groups ≡ leads_of r.peer gs + replicas_of any_replica r.peer gs
  pub offline_eq : r.offline ≡ replicas_of offline_replica r.peer gs
  pub current_eq : r.current ≡ leads_of r.peer gs + replicas_of current_replica r.peer gs
  pub leads_eq : r.leads ≡ leads_of r.peer gs
  pub referenced : 0 < r.groups
  pub few_samples : length r.sample ≤ max_peer_samples

rows-IsCounted :
    (cluster : String) (gs : List Group) (m : Aggs)
    → AllCounted gs m
    → All (IsCounted cluster gs) (map (row_of cluster) m)
rows-IsCounted cluster gs [] h = tt
rows-IsCounted cluster gs ((p, a) ∷ m) (h, hs) = (
  record {
    cluster_eq = refl;
    groups_eq = h.groups_eq;
    offline_eq = h.offline_eq;
    current_eq = h.current_eq;
    leads_eq = h.leads_eq;
    referenced = h.referenced;
    few_samples = h.few_samples;
  },
  rows-IsCounted cluster gs m hs,
)

-- Every row of `aggregatePeers` counts its peer over the groups: the groups that it leads and the
-- replica entries under its name (the leader's own entry left out) in all, the offline and the
-- current ones among them. It stands in one group at least and names five at most.
pub aggregate_peers-AllCounted :
    (cluster : String) (gs : List Group) → All (IsCounted cluster gs) (aggregate_peers cluster gs)
unfolding aggregate_peers
aggregate_peers-AllCounted cluster gs =
    All-sort_slice (IsCounted cluster gs) less_row _
      (rows-IsCounted cluster gs (add_groups gs []) (add_groups-AllCounted gs))

-- No group has the peer as its leader, and each of its replica entries is offline and not current.
abbrev IsDeadIn : String → List Group → Type 0
IsDeadIn p gs =
    (leads_of p gs ≡ 0)
    × (replicas_of current_replica p gs ≡ 0)
    × (replicas_of offline_replica p gs ≡ replicas_of any_replica p gs)

abbrev pub GhostIff : List Group → PeerRow → Type 0
GhostIff gs r = (r.health ≡ ghost) ↔ IsDeadIn r.peer gs

rows-GhostIff :
    (cluster : String) (gs : List Group) (m : Aggs)
    → AllCounted gs m
    → All (GhostIff gs) (map (row_of cluster) m)
unfolding classify_peer
rows-GhostIff cluster gs [] h = tt
rows-GhostIff cluster gs ((p, a) ∷ m) (h, hs) = (
  ground (arith, h.groups_eq, h.offline_eq, h.current_eq, h.leads_eq, h.referenced),
  rows-GhostIff cluster gs m hs,
)

sorted-GhostIff :
    (cluster : String) (gs : List Group) → All (GhostIff gs) (aggregate_peers cluster gs)
unfolding aggregate_peers
sorted-GhostIff cluster gs =
    All-sort_slice (GhostIff gs) less_row _
      (rows-GhostIff cluster gs (add_groups gs []) (add_groups-AllCounted gs))

-- The report has a row of the peer.
abbrev pub IsReported : String → List PeerRow → Type 0
IsReported p rows = (r : PeerRow) × In r rows × (r.peer ≡ p)

lookup-IsReported :
    (cluster p : String) (m : Aggs) {a : Agg}
    → lookup p m ≡ some a
    → IsReported p (map (row_of cluster) m)
unfolding lookup
lookup-IsReported cluster p [] e = absurd (ground arith)
lookup-IsReported cluster p ((q, b) ∷ m) {a} e = elim (string_eq.dec q p) [
  | yes same ↦ (row_of cluster (q, b), inl refl, same)
  | no n ↦
      let (r, i, at) = lookup-IsReported cluster p m {a = a} (ground (arith, e)) in (r, inr i, at)
]

add_groups-lookup :
    (p : String) (gs : List Group)
    → 0 < leads_of p gs + replicas_of any_replica p gs
    → (a : Agg) × (lookup p (add_groups gs []) ≡ some a)
unfolding lookup
add_groups-lookup p gs here = elim (Option-cases (lookup p (add_groups gs []))) [
  | inr found ↦ found
  | inl absent ↦ absurd (ground (arith, here, absent, (add_groups-Grown p gs []).groups_eq))
]

-- `aggregatePeers` has a row for a peer just if it leads one of the groups or stands among their
-- replicas (the leader's own entry left out), and calls the peer of a row a ghost just if no group has
-- it as its leader and each of its replica entries is offline and not current.
pub aggregate_peers-GhostIff :
    (cluster : String) (gs : List Group) (p : String)
    → (IsReported p (aggregate_peers cluster gs)
        ↔ (0 < leads_of p gs + replicas_of any_replica p gs))
      × All (GhostIff gs) (aggregate_peers cluster gs)
unfolding aggregate_peers
aggregate_peers-GhostIff cluster gs p = ((named, reported), sorted-GhostIff cluster gs)
  where
    named :
        IsReported p (aggregate_peers cluster gs) → 0 < leads_of p gs + replicas_of any_replica p gs
    named (r, i, at) =
        let counted = All-at (IsCounted cluster gs) _ r (aggregate_peers-AllCounted cluster gs) i in
        subst (λ q. 0 < leads_of q gs + replicas_of any_replica q gs) at
          (subst (λ n. 0 < n) counted.groups_eq counted.referenced)

    reported :
        0 < leads_of p gs + replicas_of any_replica p gs → IsReported p (aggregate_peers cluster gs)
    reported here =
        let (a, found) = add_groups-lookup p gs here in
        let (r, i, at) = lookup-IsReported cluster p (add_groups gs []) found in
        (r, In-sort_slice less_row r _ i, at)

abbrev pub is_ghost : PeerRow → Bool
is_ghost r = r.health == ghost

less_row-Follows : Follows (λ a b. is_ghost a && not (is_ghost b)) less_row
unfolding less_row
less_row-Follows = record {
  asym = λ a b h. ground arith;
  refines = λ a b h. ground arith;
  trans = λ a b c h k. ground arith;
}

-- In the list of `aggregatePeers` no ghost stands behind a peer that is none.
pub aggregate_peers-ghosts_first :
    (cluster : String) (gs : List Group)
    → IsSorted (λ a b. is_ghost a && not (is_ghost b)) less_row (aggregate_peers cluster gs)
unfolding aggregate_peers
aggregate_peers-ghosts_first cluster gs =
    sort_slice-IsSorted (λ a b. is_ghost a && not (is_ghost b)) less_row less_row-Follows
      (map (row_of cluster) (add_groups gs []))
