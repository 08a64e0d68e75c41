-- ===== src/Scanner/StreamReport/Skew.antt =====
-- The sums of what `PlacementSkew` counts.
use natsie.Base.{
  ℕ, ◌+◌, String, Bool, List, [], ◌∷◌, ◌==◌, string_eq, ℕ_eq, if◌then◌else◌, map, length, ◌≡◌,
  arith, count_if, sum_of,
}
use natsie.Scanner.StreamReport.{
  StreamReportRow, ServerLoad, Loads, add_replica, add_peers, add_rows, load_of,
}

abbrev pub total_replicas : List ServerLoad → ℕ
total_replicas = sum_of λ s. s.replicas

abbrev pub total_leads : List ServerLoad → ℕ
total_leads = sum_of λ s. s.leads

-- The places that the rows name.
abbrev pub places : List StreamReportRow → ℕ
places = sum_of λ r. length r.peers

-- The places whose server is the leader of the row.
abbrev pub leader_places : List StreamReportRow → ℕ
leader_places = sum_of λ r. count_if (λ p. p == r.leader) r.peers

add_replica-total_replicas :
    (p : String) (b : Bool) (m : Loads)
    → total_replicas (map load_of (add_replica p b m)) ≡ total_replicas (map load_of m) + 1
unfolding add_replica
add_replica-total_replicas p b [] = ground arith
add_replica-total_replicas p b ((q, l) ∷ m) = ground (arith, add_replica-total_replicas p b m)

add_replica-total_leads :
    (p : String) (b : Bool) (m : Loads)
    → total_leads (map load_of (add_replica p b m))
      ≡ total_leads (map load_of m) + (if b then 1 else 0)
unfolding add_replica
add_replica-total_leads p b [] = ground arith
add_replica-total_leads p b ((q, l) ∷ m) = ground (arith, add_replica-total_leads p b m)

add_peers-total_replicas :
    (leader : String) (ps : List String) (m : Loads)
    → total_replicas (map load_of (add_peers leader ps m))
      ≡ total_replicas (map load_of m) + length ps
unfolding add_peers
add_peers-total_replicas leader [] m = omega arith
add_peers-total_replicas leader (p ∷ ps) m = omega (
  arith,
  add_peers-total_replicas leader ps (add_replica p (p == leader) m),
  add_replica-total_replicas p (p == leader) m,
)

add_peers-total_leads :
    (leader : String) (ps : List String) (m : Loads)
    → total_leads (map load_of (add_peers leader ps m))
      ≡ total_leads (map load_of m) + count_if (λ p. p == leader) ps
unfolding add_peers
add_peers-total_leads leader [] m = omega arith
add_peers-total_leads leader (p ∷ ps) m = ground (
  arith,
  add_peers-total_leads leader ps (add_replica p (p == leader) m),
  add_replica-total_leads p (p == leader) m,
)

pub add_rows-total_replicas :
    (rs : List StreamReportRow) (m : Loads)
    → total_replicas (map load_of (add_rows rs m)) ≡ total_replicas (map load_of m) + places rs
unfolding add_rows
add_rows-total_replicas [] m = omega arith
add_rows-total_replicas (r ∷ rs) m = omega (
  arith,
  add_rows-total_replicas rs (add_peers r.leader r.peers m),
  add_peers-total_replicas r.leader r.peers m,
)

pub add_rows-total_leads :
    (rs : List StreamReportRow) (m : Loads)
    → total_leads (map load_of (add_rows rs m)) ≡ total_leads (map load_of m) + leader_places rs
unfolding add_rows
add_rows-total_leads [] m = omega arith
add_rows-total_leads (r ∷ rs) m = omega (
  arith,
  add_rows-total_leads rs (add_peers r.leader r.peers m),
  add_peers-total_leads r.leader r.peers m,
)
