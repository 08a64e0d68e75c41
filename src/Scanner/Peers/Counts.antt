-- ===== src/Scanner/Peers/Counts.antt =====
-- The counters of `aggregatePeers` against the groups that they are made of.
use natsie.Base.{
  ℕ, ◌+◌, ◌≤◌, ◌<◌, String, Bool, true, ◌&&◌, List, [], ◌∷◌, none, some, ◌==◌, ◌!=◌, string_eq,
  ℕ_eq, bool_eq, if◌then◌else◌, length, count_if, ◌≡◌, refl, sym, ap, ◌∙◌, arith, eq→==, ne→==,
}
use natsie.Scanner.Api.{PeerInfo}
use natsie.Scanner.Peers.{
  Group, Agg, Aggs, no_agg, lookup, update, as_leader, as_replica, add_replicas, add_group,
  add_groups, max_peer_samples,
}
use natsie.Scanner.Peers.Entries.{agg_or, lookup-update, IsSound, add_groups-IsSound}

-- The replica counts for the peer: it has its name, which is not the leader's.
abbrev pub stands : Group → String → PeerInfo → Bool
stands g p r = r.name == p && r.name != g.leader

pub leads_of : String → List Group → ℕ
leads_of p [] = 0
leads_of p (g ∷ gs) = (if g.leader == p && g.leader != "" then 1 else 0) + leads_of p gs

-- How many replicas of the groups count for the peer and pass the test.
pub replicas_of : (PeerInfo → Bool) → String → List Group → ℕ
replicas_of t p [] = 0
replicas_of t p (g ∷ gs) = count_if (λ r. stands g p r && t r) g.replicas + replicas_of t p gs

abbrev pub any_replica : PeerInfo → Bool
any_replica r = true

abbrev pub offline_replica : PeerInfo → Bool
offline_replica r = r.offline

abbrev pub current_replica : PeerInfo → Bool
current_replica r = r.current

-- `b` has what `a` has and, on top, the numbers given.
pub record Grown (a b : Agg) (groups offline current leads : ℕ) : Type 0 where
  pub groups_eq : b.groups ≡ a.groups + groups
  pub offline_eq : b.offline ≡ a.offline + offline
  pub current_eq : b.current ≡ a.current + current
  pub leads_eq : b.leads ≡ a.leads + leads

add_replicas-Grown :
    (p : String) (g : Group) (rs : List PeerInfo) (m : Aggs)
    → Grown
        (agg_or (lookup p m))
        (agg_or (lookup p (add_replicas g rs m)))
        (count_if (λ r. stands g p r && any_replica r) rs)
        (count_if (λ r. stands g p r && offline_replica r) rs)
        (count_if (λ r. stands g p r && current_replica r) rs)
        0
unfolding add_replicas
add_replicas-Grown p g [] m = omega arith
add_replicas-Grown p g (r ∷ rs) m = ground (
  arith,
  lookup-update p r.name (as_replica g.name r) m,
  add_replicas-Grown p g rs
      (if r.name == g.leader then m else update r.name (as_replica g.name r) m),
)

add_group-Grown :
    (p : String) (g : Group) (m : Aggs)
    → Grown
        (agg_or (lookup p m))
        (agg_or (lookup p (add_group g m)))
        ((if g.leader == p && g.leader != "" then 1 else 0)
          + count_if (λ r. stands g p r && any_replica r) g.replicas)
        (count_if (λ r. stands g p r && offline_replica r) g.replicas)
        ((if g.leader == p && g.leader != "" then 1 else 0)
          + count_if (λ r. stands g p r && current_replica r) g.replicas)
        (if g.leader == p && g.leader != "" then 1 else 0)
unfolding add_group
add_group-Grown p g m = ground (
  arith,
  lookup-update p g.leader (as_leader g.name) m,
  add_replicas-Grown p g g.replicas
      (if g.leader != "" then update g.leader (as_leader g.name) m else m),
)

pub add_groups-Grown :
    (p : String) (gs : List Group) (m : Aggs)
    → Grown
        (agg_or (lookup p m))
        (agg_or (lookup p (add_groups gs m)))
        (leads_of p gs + replicas_of any_replica p gs)
        (replicas_of offline_replica p gs)
        (leads_of p gs + replicas_of current_replica p gs)
        (leads_of p gs)
unfolding add_groups leads_of replicas_of
add_groups-Grown p [] m = omega arith
add_groups-Grown p (g ∷ gs) m =
    ground (arith, add_group-Grown p g m, add_groups-Grown p gs (add_group g m))

-- The entry of a peer holds the numbers that the groups give for it.
pub record Counted (p : String) (gs : List Group) (a : Agg) : Type 0 where
  pub groups_eq : a.groups ≡ leads_of p gs + replicas_of any_replica p gs
  pub offline_eq : a.offline ≡ replicas_of offline_replica p gs
  pub current_eq : a.current ≡ leads_of p gs + replicas_of current_replica p gs
  pub leads_eq : a.leads ≡ leads_of p gs
  pub referenced : 0 < a.groups
  pub few_samples : length a.sample ≤ max_peer_samples

abbrev pub AllCounted : List Group → Aggs → Type 0
AllCounted gs [] = Unit {0}
AllCounted gs ((p, a) ∷ m) = Counted p gs a × AllCounted gs m

none-ne-some : (b : Agg) → none ≡ some b → ⊥
none-ne-some b e = ground arith

counted_from :
    (gs : List Group) (m : Aggs) (all : Aggs)
    → IsSound m
    → ((p : String) (a : Agg) → lookup p m ≡ some a → lookup p all ≡ some a)
    → ((p : String)
        → Grown no_agg
            (agg_or (lookup p all))
            (leads_of p gs + replicas_of any_replica p gs)
            (replicas_of offline_replica p gs)
            (leads_of p gs + replicas_of current_replica p gs)
            (leads_of p gs))
    → AllCounted gs m
unfolding lookup
counted_from gs [] all s inc grown = tt
counted_from gs ((p, a) ∷ m) all (fresh, live, few, s) inc grown = (
  record {
    groups_eq = ground (arith, at, grown p);
    offline_eq = ground (arith, at, grown p);
    current_eq = ground (arith, at, grown p);
    leads_eq = ground (arith, at, grown p);
    referenced = live;
    few_samples = few;
  },
  counted_from gs m all s (λ q b e. inc q b (later q b e)) grown,
)
  where
    at : lookup p all ≡ some a
    at = inc p a (rw (eq→== p p refl))

    later : (q : String) (b : Agg) → lookup q m ≡ some b → lookup q ((p, a) ∷ m) ≡ some b
    later q b e = elim (string_eq.dec p q) [
      | yes same ↦ absurd (none-ne-some b (sym fresh ∙ ap (λ k. lookup k m) same ∙ e))
      | no n ↦ rw (ne→== p q n) e
    ]

pub add_groups-AllCounted : (gs : List Group) → AllCounted gs (add_groups gs [])
unfolding lookup add_groups
add_groups-AllCounted gs =
    counted_from gs (add_groups gs []) (add_groups gs []) (add_groups-IsSound gs [] tt) (λ p a e. e)
      (λ p. add_groups-Grown p gs [])
