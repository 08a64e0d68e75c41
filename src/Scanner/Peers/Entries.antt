-- ===== src/Scanner/Peers/Entries.antt =====
-- The map of `aggregatePeers`: what an update does to it, and that no peer has two entries.
use natsie.Base.{
  ◌≤◌, ◌<◌, String, true, false, List, [], ◌∷◌, Option, none, some, ◌==◌, ◌!=◌, string_eq, ℕ_eq,
  bool_eq, if◌then◌else◌, length, ◌≡◌, refl, arith, ◌⊎◌, inl, inr, length-append, Bool-cases, eq→==,
  ne→==,
}
use natsie.Scanner.Api.{PeerInfo}
use natsie.Scanner.Peers.{
  Group, Agg, Aggs, no_agg, lookup, update, touched, as_leader, as_replica, add_replicas, add_group,
  add_groups, max_peer_samples,
}

abbrev pub agg_or : Option Agg → Agg
agg_or none = no_agg
agg_or (some a) = a

pub lookup-update :
    (p q : String) (f : Agg → Agg) (m : Aggs)
    → lookup p (update q f m) ≡ (if q == p then some (f (agg_or (lookup p m))) else lookup p m)
unfolding lookup update
lookup-update p q f [] = ground arith
lookup-update p q f ((k, a) ∷ m) = ground (arith, lookup-update p q f m)

-- No key stands twice, and every entry counts a group and has few samples.
abbrev pub IsSound : Aggs → Type 0
IsSound [] = Unit {0}
IsSound ((p, a) ∷ m) =
    (lookup p m ≡ none) × (0 < a.groups) × (length a.sample ≤ max_peer_samples) × IsSound m

Grows : (Agg → Agg) → Type 0
Grows f =
    (a : Agg)
    → (0 < (f a).groups)
      × (length a.sample ≤ max_peer_samples → length (f a).sample ≤ max_peer_samples)

touched-Grows :
    (g : String) (a : Agg)
    → length a.sample ≤ max_peer_samples
    → length (touched g a).sample ≤ max_peer_samples
touched-Grows g a h = ground (arith, length-append a.sample (g ∷ []))

as_leader-Grows : (g : String) → Grows (as_leader g)
unfolding Grows
as_leader-Grows g a = (omega arith, touched-Grows g a)

as_replica-Grows : (g : String) (r : PeerInfo) → Grows (as_replica g r)
unfolding Grows
as_replica-Grows g r a = (omega arith, touched-Grows g a)

update-IsSound :
    (p : String) (f : Agg → Agg) (m : Aggs) → Grows f → IsSound m → IsSound (update p f m)
unfolding update Grows lookup
update-IsSound p f [] grows s = (refl, (grows no_agg).0, (grows no_agg).1 (omega arith), tt)
update-IsSound p f ((q, a) ∷ m) grows (fresh, live, few, s) = elim (string_eq.dec q p) [
  | yes e ↦ rw (eq→== q p e) (fresh, (grows a).0, (grows a).1 few, s)
  | no n ↦
      rw (ne→== q p n)
        (ground (arith, lookup-update q p f m), live, few, update-IsSound p f m grows s)
]

add_replicas-IsSound :
    (g : Group) (rs : List PeerInfo) (m : Aggs) → IsSound m → IsSound (add_replicas g rs m)
unfolding add_replicas
add_replicas-IsSound g [] m s = s
add_replicas-IsSound g (r ∷ rs) m s =
    add_replicas-IsSound g rs _ (next (Bool-cases (r.name == g.leader)))
  where
    next :
        ((r.name == g.leader) ≡ true) ⊎ ((r.name == g.leader) ≡ false)
        → IsSound (if r.name == g.leader then m else update r.name (as_replica g.name r) m)
    next (inl e) = rw e s
    next (inr e) =
        rw e (update-IsSound r.name (as_replica g.name r) m (as_replica-Grows g.name r) s)

add_group-IsSound : (g : Group) (m : Aggs) → IsSound m → IsSound (add_group g m)
unfolding add_group
add_group-IsSound g m s = add_replicas-IsSound g g.replicas _ (next (Bool-cases (g.leader != "")))
  where
    next :
        ((g.leader != "") ≡ true) ⊎ ((g.leader != "") ≡ false)
        → IsSound (if g.leader != "" then update g.leader (as_leader g.name) m else m)
    next (inl e) = rw e (update-IsSound g.leader (as_leader g.name) m (as_leader-Grows g.name) s)
    next (inr e) = rw e s

pub add_groups-IsSound : (gs : List Group) (m : Aggs) → IsSound m → IsSound (add_groups gs m)
unfolding add_groups
add_groups-IsSound [] m s = s
add_groups-IsSound (g ∷ gs) m s = add_groups-IsSound gs (add_group g m) (add_group-IsSound g m s)
