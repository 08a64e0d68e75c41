-- ===== src/Cleanup/Rule.antt =====
-- The induction over `Apply`: what every round of its loops keeps, the whole call keeps.
use natsie.Base.{
  ◌+◌, String, List, [], ◌∷◌, ◌++◌, string_eq, All, Option-cases, inl, inr, All-append, eq→==,
  ne→==, sym, subst,
}
use natsie.Go.Time.{Time}
use natsie.Manifest.{Entry, Manifest}
use natsie.Cleanup.Nats.{Target, Server, Session, dialed, closed}
use natsie.Cleanup.{
  conn_fail, Event, Outcome, Options, empty, apply_entry, apply_on_cluster, fail_all, apply_cluster,
  apply_clusters, apply, Groups, add_entry, group_from, by_cluster, entries_of,
}

abbrev pub failed_event : Target → String → Event
failed_event t text = record { target = t; action = conn_fail; detail = text }

-- What the rounds keep: `P` of session and outcome, for entries of which `Q` holds.
pub record Keeps (S : Server) (opts : Options) (at : Time) (Q : String → Entry → Type 0)
    (P : Session S → Outcome → Type 0) : Type 0 where
  pub dial :
      (c : String) (w : Session S) (r : Outcome)
      → P w r
      → P (record { state = (S.connect w.state c).1; log = dialed c ∷ w.log }) r
  pub close :
      (c : String) (w : Session S) (r : Outcome) → P w r → P (record w { log = closed c ∷ w.log }) r
  pub unreachable :
      (c text : String) (e : Entry) (w : Session S) (r : Outcome)
      → Q c e
      → P w r
      → P w (record r {
        failed = r.failed + 1;
        events =
            r.events
            ++ (failed_event (record { cluster = c; stream = e.stream; consumer = e.consumer }) text
                ∷ []);
      })
  pub entry :
      (c : String) (e : Entry) (w : Session S) (r : Outcome)
      → Q c e
      → P w r
      → P (apply_entry S c opts at e w r).0 (apply_entry S c opts at e w r).1

-- `Q` holds of every entry, under the key that holds it.
abbrev pub AllGroups : (String → Entry → Type 0) → Groups → Type 0
AllGroups Q [] = Unit {0}
AllGroups Q ((c, es) ∷ groups) = All (Q c) es × AllGroups Q groups

pub entries_of-All :
    (Q : String → Entry → Type 0) (c : String) (groups : Groups)
    → AllGroups Q groups
    → All (Q c) (entries_of c groups)
unfolding entries_of
entries_of-All Q c [] h = tt
entries_of-All Q c ((d, es) ∷ groups) (h, hs) = elim (string_eq.dec d c) [
  | yes e ↦ rw (eq→== d c e, ← e) h
  | no n ↦ rw (ne→== d c n) (entries_of-All Q c groups hs)
]

module _ (S : Server) (opts : Options) (at : Time) {Q : String → Entry → Type 0}
    {P : Session S → Outcome → Type 0} (k : Keeps S opts at Q P) where
  pub apply_on_cluster-keeps :
      (c : String) (es : List Entry) (w : Session S) (r : Outcome)
      → All (Q c) es
      → P w r
      → P (apply_on_cluster S c opts at es w r).0 (apply_on_cluster S c opts at es w r).1
  unfolding apply_on_cluster
  apply_on_cluster-keeps c [] w r q p = p
  apply_on_cluster-keeps c (e ∷ es) w r q p =
      apply_on_cluster-keeps c es _ _ q.1 (k.entry c e w r q.0 p)

  fail_all-keeps :
      (c text : String) (es : List Entry) (w : Session S) (r : Outcome)
      → All (Q c) es
      → P w r
      → P w (fail_all c text es r)
  unfolding fail_all
  fail_all-keeps c text [] w r q p = p
  fail_all-keeps c text (e ∷ es) w r q p =
      fail_all-keeps c text es w _ q.1 (k.unreachable c text e w r q.0 p)

  pub apply_cluster-keeps :
      (c : String) (es : List Entry) (w : Session S) (r : Outcome)
      → All (Q c) es
      → P w r
      → P (apply_cluster S opts at c es w r).0 (apply_cluster S opts at c es w r).1
  unfolding apply_cluster
  apply_cluster-keeps c es w r q p = elim (Option-cases (S.connect w.state c).0) [
    | inl n ↦
        rw (n, apply_cluster) (k.close c _ _ (apply_on_cluster-keeps c es _ r q (k.dial c w r p)))
    | inr (text, e) ↦ rw (e, apply_cluster) (fail_all-keeps c text es _ r q (k.dial c w r p))
  ]

  apply_clusters-keeps :
      (groups : Groups) (order : List String) (w : Session S) (r : Outcome)
      → AllGroups Q groups
      → P w r
      → P
          (apply_clusters S opts at groups order w r).0
          (apply_clusters S opts at groups order w r).1
  unfolding apply_clusters
  apply_clusters-keeps groups [] w r q p = p
  apply_clusters-keeps groups (c ∷ order) w r q p = elim (Option-cases (S.cancelled w.state)) [
    | inl n ↦
        rw (n, apply_clusters)
          (apply_clusters-keeps groups order _ _ q
            (apply_cluster-keeps c (entries_of c groups) w r (entries_of-All Q c groups q) p))
    | inr (text, e) ↦ rw (e, apply_clusters) p
  ]

-- The entries of a group keep what they satisfy.
add_entry-AllGroups :
    (Q : String → Entry → Type 0) (e : Entry) (groups : Groups)
    → Q e.cluster e
    → AllGroups Q groups
    → AllGroups Q (add_entry e groups)
unfolding add_entry
add_entry-AllGroups Q e [] q h = ((q, tt), tt)
add_entry-AllGroups Q e ((c, es) ∷ groups) q (h, hs) = elim (string_eq.dec c e.cluster) [
  | yes s ↦
      rw (eq→== c e.cluster s)
        (All-append (Q c) es (e ∷ []) h (subst (λ d. Q d e) (sym s) q, tt), hs)
  | no n ↦ rw (ne→== c e.cluster n) (h, add_entry-AllGroups Q e groups q hs)
]

group_from-AllGroups :
    (Q : String → Entry → Type 0) (groups : Groups) (es : List Entry)
    → All (λ e. Q e.cluster e) es
    → AllGroups Q groups
    → AllGroups Q (group_from groups es)
unfolding group_from
group_from-AllGroups Q groups [] q h = h
group_from-AllGroups Q groups (e ∷ es) (q, qs) h =
    group_from-AllGroups Q (add_entry e groups) es qs (add_entry-AllGroups Q e groups q h)

-- What holds of the entries of the manifest and is kept by the rounds holds after the call.
pub apply-keeps :
    (S : Server) (order : List String) (m : Manifest) (opts : Options) {Q : String → Entry → Type 0}
    {P : Session S → Outcome → Type 0}
    → Keeps S opts m.generated_at Q P
    → All (λ e. Q e.cluster e) m.entries
    → (w : Session S) → P w empty
    → P (apply S order m opts w).0 (apply S order m opts w).1
unfolding apply by_cluster
apply-keeps S order m opts {Q} k q w p =
    apply_clusters-keeps S opts m.generated_at k (by_cluster m.entries) order w empty
      (group_from-AllGroups Q [] m.entries q tt) p
