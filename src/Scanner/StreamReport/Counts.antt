-- ===== src/Scanner/StreamReport/Counts.antt =====
-- What `PlacementSkew` counts for each server.
use natsie.Base.{
  ℕ, ◌+◌, String, Bool, List, [], ◌∷◌, ◌==◌, string_eq, ℕ_eq, if◌then◌else◌, map, ◌≡◌, arith,
  count_if, sum_of, ◌<◌, ◌&&◌, ◌↔◌, All, All-at, In, inl, inr, refl, ap, subst, ◌∙◌, eq→==, ne→==,
}
use natsie.Go.Sort.{sum_of-sort_slice, All-sort_slice, In-sort_slice}
use natsie.Scanner.StreamReport.{
  StreamReportRow, ServerLoad, Load, Loads, counted, lookup, add_replica, add_peers, add_rows,
  load_of, less_load, placement_skew,
}
use natsie.Scanner.StreamReport.Skew.{
  total_replicas, total_leads, places, leader_places, add_rows-total_replicas, add_rows-total_leads,
}

-- The places of a server, and those where it leads.
abbrev pub places_at : String → List StreamReportRow → ℕ
places_at p = sum_of λ r. count_if (λ q. q == p) r.peers

abbrev pub leads_at : String → List StreamReportRow → ℕ
leads_at p = sum_of λ r. count_if (λ q. q == p && q == r.leader) r.peers

lookup-add_replica :
    (p q : String) (b : Bool) (m : Loads)
    → lookup p (add_replica q b m) ≡ (if q == p then counted b (lookup p m) else lookup p m)
unfolding lookup add_replica
lookup-add_replica p q b [] = ground arith
lookup-add_replica p q b ((k, l) ∷ m) = ground (arith, lookup-add_replica p q b m)

-- The load has the places and leads of another and, on top, the numbers given.
record Grown (a b : Load) (replicas leads : ℕ) : Type 0 where
  pub replicas_eq : b.replicas ≡ a.replicas + replicas
  pub leads_eq : b.leads ≡ a.leads + leads

add_peers-Grown :
    (p leader : String) (ps : List String) (m : Loads)
    → Grown
        (lookup p m)
        (lookup p (add_peers leader ps m))
        (count_if (λ q. q == p) ps)
        (count_if (λ q. q == p && q == leader) ps)
unfolding add_peers
add_peers-Grown p leader [] m = omega arith
add_peers-Grown p leader (q ∷ ps) m = ground (
  arith,
  lookup-add_replica p q (q == leader) m,
  add_peers-Grown p leader ps (add_replica q (q == leader) m),
)

add_rows-Grown :
    (p : String) (rs : List StreamReportRow) (m : Loads)
    → Grown (lookup p m) (lookup p (add_rows rs m)) (places_at p rs) (leads_at p rs)
unfolding add_rows
add_rows-Grown p [] m = omega arith
add_rows-Grown p (r ∷ rs) m = ground (
  arith,
  add_peers-Grown p r.leader r.peers m,
  add_rows-Grown p rs (add_peers r.leader r.peers m),
)

-- No server stands twice, and every entry counts a place.
abbrev IsSound : Loads → Type 0
IsSound [] = Unit {0}
IsSound ((p, l) ∷ m) = ((lookup p m).replicas ≡ 0) × (0 < l.replicas) × IsSound m

add_replica-IsSound : (p : String) (b : Bool) (m : Loads) → IsSound m → IsSound (add_replica p b m)
unfolding add_replica lookup
add_replica-IsSound p b [] s = (refl, omega arith, tt)
add_replica-IsSound p b ((q, l) ∷ m) (fresh, live, s) = elim (string_eq.dec q p) [
  | yes e ↦ rw (eq→== q p e) (fresh, omega arith, s)
  | no n ↦
      rw (ne→== q p n)
        (ground (arith, lookup-add_replica q p b m), live, add_replica-IsSound p b m s)
]

add_peers-IsSound :
    (leader : String) (ps : List String) (m : Loads) → IsSound m → IsSound (add_peers leader ps m)
unfolding add_peers
add_peers-IsSound leader [] m s = s
add_peers-IsSound leader (p ∷ ps) m s =
    add_peers-IsSound leader ps _ (add_replica-IsSound p (p == leader) m s)

add_rows-IsSound : (rs : List StreamReportRow) (m : Loads) → IsSound m → IsSound (add_rows rs m)
unfolding add_rows
add_rows-IsSound [] m s = s
add_rows-IsSound (r ∷ rs) m s = add_rows-IsSound rs _ (add_peers-IsSound r.leader r.peers m s)

-- The load counts what the rows say of its server.
pub record IsCounted (rows : List StreamReportRow) (s : ServerLoad) : Type 0 where
  pub replicas_eq : s.replicas ≡ places_at s.server rows
  pub leads_eq : s.leads ≡ leads_at s.server rows
  pub placed : 0 < s.replicas

loads-IsCounted :
    (rows : List StreamReportRow) (m : Loads)
    → IsSound m
    → ((p : String) → 0 < (lookup p m).replicas → lookup p (add_rows rows []) ≡ lookup p m)
    → All (IsCounted rows) (map load_of m)
unfolding lookup
loads-IsCounted rows [] s inc = tt
loads-IsCounted rows ((p, l) ∷ m) (fresh, live, s) inc = (
  record {
    replicas_eq = ground (arith, at, add_rows-Grown p rows []);
    leads_eq = ground (arith, at, add_rows-Grown p rows []);
    placed = live;
  },
  loads-IsCounted rows m s later,
)
  where
    at : lookup p (add_rows rows []) ≡ l
    at = inc p (rw (eq→== p p refl) live) ∙ rw (eq→== p p refl) refl

    later : (q : String) → 0 < (lookup q m).replicas → lookup q (add_rows rows []) ≡ lookup q m
    later q h = elim (string_eq.dec p q) [
      | yes same ↦ absurd (ground (arith, h, fresh, ap (λ k. (lookup k m).replicas) same))
      | no n ↦ inc q (rw (ne→== p q n) h) ∙ rw (ne→== p q n) refl
    ]

placement_skew-AllCounted :
    (rows : List StreamReportRow) → All (IsCounted rows) (placement_skew rows)
unfolding placement_skew lookup
placement_skew-AllCounted rows =
    All-sort_slice (IsCounted rows) less_load _
      (loads-IsCounted rows (add_rows rows []) (add_rows-IsSound rows [] tt) (λ p h. refl))

-- The list has a load of the server.
abbrev pub IsReported : String → List ServerLoad → Type 0
IsReported p loads = (s : ServerLoad) × In s loads × (s.server ≡ p)

lookup-IsReported :
    (p : String) (m : Loads) → 0 < (lookup p m).replicas → IsReported p (map load_of m)
unfolding lookup
lookup-IsReported p [] h = absurd (omega (arith, h))
lookup-IsReported p ((q, l) ∷ m) h = elim (string_eq.dec q p) [
  | yes same ↦ (load_of (q, l), inl refl, same)
  | no n ↦ let (s, i, at) = lookup-IsReported p m (rw (ne→== q p n) at h) in (s, inr i, at)
]

placement_skew-IsReported :
    (rows : List StreamReportRow) (p : String)
    → IsReported p (placement_skew rows) ↔ (0 < places_at p rows)
unfolding placement_skew lookup
placement_skew-IsReported rows p = (named, reported)
  where
    named : IsReported p (placement_skew rows) → 0 < places_at p rows
    named (s, i, at) =
        let counted = All-at (IsCounted rows) _ s (placement_skew-AllCounted rows) i in
        subst (λ q. 0 < places_at q rows) at (subst (λ n. 0 < n) counted.replicas_eq counted.placed)

    reported : 0 < places_at p rows → IsReported p (placement_skew rows)
    reported h =
        let here : 0 < (lookup p (add_rows rows [])).replicas =
          ground (arith, add_rows-Grown p rows []) in
        let (s, i, at) = lookup-IsReported p (add_rows rows []) here in
        (s, In-sort_slice less_load s _ i, at)

-- `PlacementSkew` lists a server just if the rows name it, and counts for each server the places that
-- the rows name for it, and as leads those of them where it is the leader of the row. The replicas of
-- the list add up to all the places, and the leads to all the places whose server leads the row.
pub placement_skew-counts :
    (rows : List StreamReportRow) (p : String)
    → (IsReported p (placement_skew rows) ↔ (0 < places_at p rows))
      × All (IsCounted rows) (placement_skew rows)
      × (total_replicas (placement_skew rows) ≡ places rows)
      × (total_leads (placement_skew rows) ≡ leader_places rows)
unfolding placement_skew
placement_skew-counts rows p = (
  placement_skew-IsReported rows p,
  placement_skew-AllCounted rows,
  omega (
    arith,
    sum_of-sort_slice (λ s. s.replicas) less_load (map load_of (add_rows rows [])),
    add_rows-total_replicas rows [],
  ),
  omega (
    arith,
    sum_of-sort_slice (λ s. s.leads) less_load (map load_of (add_rows rows [])),
    add_rows-total_leads rows [],
  ),
)
