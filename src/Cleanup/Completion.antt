-- ===== src/Cleanup/Completion.antt =====
-- Which consumers are gone after `Apply`.
use natsie.Base.{
  String, false, List, [], ◌∷◌, Option, none, some, ◌≡◌, refl, sym, ap, ◌∙◌, subst, arith, ◌⊎◌, inl,
  inr, In, All-of,
}
use natsie.Manifest.{Entry, Manifest}
use natsie.Go.Time.{Time}
use natsie.Cleanup.Nats.{
  Target, ConsumerInfo, decoded, Server, Session, found, fetched, fetch_consumer_info,
  delete_consumer,
}
use natsie.Cleanup.{
  Options, Outcome, Groups, apply, apply_entry, apply_on_cluster, apply_cluster, apply_clusters,
  by_cluster, entries_of, target_of,
}
use natsie.Cleanup.Cases.{IsIdle, apply_entry_cases}
use natsie.Cleanup.Rule.{Keeps, apply_on_cluster-keeps, apply_cluster-keeps}
use natsie.Cleanup.Guarded.{at_key, IsListed}
use natsie.Cleanup.Grouping.{entries_of-by_cluster, In-keep}
use natsie.Cleanup.Survival.{IsLawful, Target-discrete}

-- Every cluster can be dialed, the run is not cancelled, a question about a consumer that is there is
-- answered with it, and a deletion removes the consumer.
pub record IsResponsive (S : Server) (find : S.State → Target → Option ConsumerInfo) : Type 0 where
  pub not_cancelled : (s : S.State) → S.cancelled s ≡ none
  pub reachable : (s : S.State) (c : String) → (S.connect s c).0 ≡ none
  pub answers :
      (s : S.State) (u : Target) (i : ConsumerInfo) → find s u ≡ some i → (S.info s u).0 ≡ decoded i
  pub removes : (s : S.State) (u : Target) → find (S.delete s u).1 u ≡ none

abbrev pub AnyEntry : String → Entry → Type 0
AnyEntry c e = Unit {0}

abbrev IsGone : Option ConsumerInfo → Type 0
IsGone o = o ≡ none

abbrev IsSomeOrGone : ConsumerInfo → Option ConsumerInfo → Type 0
IsSomeOrGone i o = (o ≡ some i) ⊎ IsGone o

module _ (S : Server) (find : S.State → Target → Option ConsumerInfo) (lawful : IsLawful S find)
    (live : IsResponsive S find) (opts : Options) (at : Time) (t : Target) where
  asks : (u : Target) (w : Session S) → find (fetch_consumer_info S u w).1.state t ≡ find w.state t
  unfolding fetch_consumer_info
  asks u w = lawful.info_keeps w.state u t

  deletes :
      (Q : Option ConsumerInfo → Type 0) (u : Target) (w : Session S)
      → Q none
      → Q (find w.state t)
      → Q (find (delete_consumer S u w).1.state t)
  unfolding delete_consumer
  deletes Q u w gone h = elim (Target-discrete t u) [
    | yes e ↦ subst Q (sym (ap (find _) e ∙ live.removes w.state u)) gone
    | no n ↦ subst Q (sym (lawful.delete_keeps w.state u t n)) h
  ]

  -- A consumer stays as it is, or goes.
  loses :
      (Q : Option ConsumerInfo → Type 0)
      → Q none
      → Keeps S opts at AnyEntry (λ w _. Q (find w.state t))
  loses Q gone = record {
    dial = λ c w r h. subst Q (sym (lawful.connect_keeps w.state c t)) h;
    close = λ c w r h. h;
    unreachable = λ c text e w r _ h. h;
    entry = λ c e w r _ h.
        let asked = subst Q (sym (asks (at_key c e) w)) h in
        apply_entry_cases S c opts at e w r (λ w' _. Q (find w'.state t))
          (record {
            skipped = λ _. h;
            absent = λ _ _. asked;
            unknown = λ text _ _. asked;
            owned = λ i _ _ _. asked;
            busy = λ i _ _ _. asked;
            previewed = λ i _ _ _ _. asked;
            refused = λ i text _ _ _ _ _. deletes Q _ _ gone asked;
            removed = λ i _ _ _ _ _. deletes Q _ _ gone asked;
          });
  }

  -- The facts on a question about the consumer itself, under any name for it.
  module _ (u : Target) (here : u ≡ t) where
    fetch-eq-found :
        (w : Session S) (i : ConsumerInfo)
        → i.error ≡ none
        → find w.state t ≡ some i
        → (fetch_consumer_info S u w).0 ≡ found i
    unfolding fetch_consumer_info fetched
    fetch-eq-found w i fine there =
        let reply = live.answers w.state u i (ap (find w.state) here ∙ there) in
        ground (arith, reply, fine)

    still-IsIdle : (i j : ConsumerInfo) → IsIdle opts at t i → i ≡ j → IsIdle opts at u j
    still-IsIdle i j idle e =
        subst (λ v. IsIdle opts at v j) (sym here) (subst (IsIdle opts at t) e idle)

    delete-IsGone : (w : Session S) → find (delete_consumer S u w).1.state t ≡ none
    unfolding delete_consumer
    delete-IsGone w = ap (find _) (sym here) ∙ live.removes w.state u

  -- The round of an entry that names the consumer, idle or gone already.
  apply_entry-IsGone :
      (e : Entry) (w : Session S) (r : Outcome) (i : ConsumerInfo)
      → i.error ≡ none
      → target_of e ≡ t
      → e.skip ≡ false
      → opts.dry_run ≡ false
      → IsIdle opts at t i
      → IsSomeOrGone i (find w.state t)
      → find (apply_entry S t.cluster opts at e w r).0.state t ≡ none
  apply_entry-IsGone e w r i fine same listed real idle (inr gone) =
      (loses IsGone refl).entry t.cluster e w r tt gone
  apply_entry-IsGone e w r i fine same listed real idle (inl there) =
      let u = at_key t.cluster e in
      let here : u ≡ t = ap (λ c. at_key c e) (sym (ap (λ v. v.cluster) same)) ∙ same in
      let known : (fetch_consumer_info S u w).0 ≡ found i = fetch-eq-found u here w i fine there in
      apply_entry_cases S t.cluster opts at e w r (λ w' _. find w'.state t ≡ none)
        (record {
          skipped = λ s. cc;
          absent = λ _ x. cc;
          unknown = λ text _ x. cc;
          owned = λ j _ x why. absurd (why (still-IsIdle u here i j idle (cc)).unprotected);
          busy = λ j _ x why. absurd (why (still-IsIdle u here i j idle (cc)).inactive);
          previewed = λ j _ _ _ dry. cc;
          refused = λ j text _ _ _ _ _. delete-IsGone u here _;
          removed = λ j _ _ _ _ _. delete-IsGone u here _;
        })

  module _ (e : Entry) (i : ConsumerInfo) (fine : i.error ≡ none) (same : target_of e ≡ t)
      (listed : e.skip ≡ false) (real : opts.dry_run ≡ false) (idle : IsIdle opts at t i) where
    apply_on_cluster-IsGone :
        (es : List Entry) (w : Session S) (r : Outcome)
        → In e es
        → IsSomeOrGone i (find w.state t)
        → find (apply_on_cluster S t.cluster opts at es w r).0.state t ≡ none
    unfolding apply_on_cluster
    apply_on_cluster-IsGone [] w r h p = absurd h
    apply_on_cluster-IsGone (x ∷ es) w r (inl first) p =
        let listed' : x.skip ≡ false = cc in
        apply_on_cluster-keeps S opts at (loses IsGone refl) t.cluster es _ _
          (All-of (AnyEntry t.cluster) (λ _. tt) es)
          (apply_entry-IsGone x w r i fine (ap target_of (sym first) ∙ same) listed' real idle p)
    apply_on_cluster-IsGone (x ∷ es) w r (inr later) p =
        apply_on_cluster-IsGone es _ _ later
          ((loses (IsSomeOrGone i) (inr refl)).entry t.cluster x w r tt p)

    apply_cluster-IsGone :
        (es : List Entry) (w : Session S) (r : Outcome)
        → In e es
        → IsSomeOrGone i (find w.state t)
        → find (apply_cluster S opts at t.cluster es w r).0.state t ≡ none
    unfolding apply_cluster
    apply_cluster-IsGone es w r h p =
        let dialed = (loses (IsSomeOrGone i) (inr refl)).dial t.cluster w r p in
        rw (live.reachable w.state t.cluster, apply_cluster)
          (apply_on_cluster-IsGone es _ r h dialed)

    apply_clusters-gone :
        (groups : Groups) (order : List String) (w : Session S) (r : Outcome)
        → find w.state t ≡ none
        → find (apply_clusters S opts at groups order w r).0.state t ≡ none
    unfolding apply_clusters
    apply_clusters-gone groups [] w r p = p
    apply_clusters-gone groups (c ∷ order) w r p =
        rw (live.not_cancelled w.state, apply_clusters)
          (apply_clusters-gone groups order _ _ (
            apply_cluster-keeps S opts at (loses IsGone refl) c (entries_of c groups) w r
              (All-of (AnyEntry c) (λ _. tt) (entries_of c groups)) p))

    apply_clusters-IsGone :
        (groups : Groups) (order : List String) (w : Session S) (r : Outcome)
        → In e (entries_of t.cluster groups)
        → In t.cluster order
        → IsSomeOrGone i (find w.state t)
        → find (apply_clusters S opts at groups order w r).0.state t ≡ none
    unfolding apply_clusters
    apply_clusters-IsGone groups [] w r h m p = absurd m
    apply_clusters-IsGone groups (c ∷ order) w r h (inl first) p =
        rw (live.not_cancelled w.state, ← first, apply_clusters)
          (apply_clusters-gone groups order _ _
            (apply_cluster-IsGone (entries_of t.cluster groups) w r h p))
    apply_clusters-IsGone groups (c ∷ order) w r h (inr later) p =
        rw (live.not_cancelled w.state, apply_clusters)
          (apply_clusters-IsGone groups order _ _ h later (
            apply_cluster-keeps S opts at (loses (IsSomeOrGone i) (inr refl)) c
              (entries_of c groups) w r (All-of (AnyEntry c) (λ _. tt) (entries_of c groups)) p))

-- Where every cluster answers, a consumer is gone after `Apply` if the manifest has an entry for it
-- that is not skipped, `Apply` goes through its cluster, the run is no dry run and the consumer is
-- neither protected nor active since the manifest was generated.
pub apply_deletes :
    (S : Server) (find : S.State → Target → Option ConsumerInfo)
    → IsLawful S find
    → IsResponsive S find
    → (order : List String) (m : Manifest) (opts : Options) (w : Session S) (t : Target)
      (i : ConsumerInfo)
    → IsListed m t
    → In t.cluster order
    → opts.dry_run ≡ false
    → find w.state t ≡ some i
    → i.error ≡ none
    → IsIdle opts m.generated_at t i
    → find (apply S order m opts w).0.state t ≡ none
unfolding apply
apply_deletes S find lawful live order m opts w t i (e, member, listed, same) reached real there
      fine idle =
    apply_clusters-IsGone S find lawful live opts m.generated_at t e i fine same listed real idle
      (by_cluster m.entries) order w _
      (rw entries_of-by_cluster (In-keep t.cluster e m.entries member (ap (λ v. v.cluster) same)))
      reached (inl there)
