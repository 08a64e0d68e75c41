-- ===== src/Cleanup/Survival.antt =====
-- Which consumers are still there after `Apply`.
use natsie.Base.{
  String, true, false, List, Option, none, some, ◌≡◌, refl, sym, ap, ◌∙◌, subst, arith, ◌⊎◌, inl,
  inr, ℕ_eq, string_eq, ◌≢◌, ◌<◌, cons-ne-nil, Bool-cases,
}
use natsie.Base.Int.{pos, ◌<ℤ◌, ltb_ℤ}
use natsie.Go.Time.{Time, is_after}
use natsie.Protect.{reason}
use natsie.Manifest.{Entry, Manifest}
use natsie.Cleanup.Nats.{
  Target, ConsumerInfo, Reply, failed, undecodable, decoded, Server, Session, found, fetched,
  fetch_consumer_info, delete_consumer,
}
use natsie.Cleanup.{Options, is_active, apply}
use natsie.Cleanup.Cases.{IsIdle, apply_entry_cases}
use natsie.Cleanup.Rule.{Keeps, apply-keeps}
use natsie.Cleanup.Guarded.{IsListed, Own, In-All, at_key}

-- `find` is the consumer that the server has under a name. Connecting and asking leave the consumers
-- as they are, an answer with no error tells the truth, and a deletion touches no other consumer.
pub record IsLawful (S : Server) (find : S.State → Target → Option ConsumerInfo) : Type 0 where
  pub connect_keeps : (s : S.State) (c : String) (t : Target) → find (S.connect s c).1 t ≡ find s t
  pub info_keeps : (s : S.State) (u t : Target) → find (S.info s u).1 t ≡ find s t
  pub info_true :
      (s : S.State) (u : Target) (i : ConsumerInfo)
      → (S.info s u).0 ≡ decoded i
      → i.error ≡ none
      → find s u ≡ some i
  pub delete_keeps : (s : S.State) (u t : Target) → t ≢ u → find (S.delete s u).1 t ≡ find s t

pub Target-discrete : Discrete Target
Target-discrete = hlevel (string_eq.dec)

pub fetched-eq-found :
    (reply : Reply ConsumerInfo) (i : ConsumerInfo)
    → fetched reply ≡ found i
    → (reply ≡ decoded i) × (i.error ≡ none)
unfolding fetched
fetched-eq-found (failed e) i h = ground arith
fetched-eq-found (undecodable e) i h = ground arith
fetched-eq-found (decoded j) i h = ground arith

-- The consumer is protected, push-bound, has pull waiters, or has acked after the time.
abbrev pub IsKept : Options → Time → Target → ConsumerInfo → Type 0
IsKept opts at t i =
    (reason opts.protect t.stream t.consumer i.metadata ≢ "")
    ⊎ (i.push_bound ≡ true)
    ⊎ (pos 0 <ℤ i.num_waiting)
    ⊎ ((acked : Time) × (i.last_active ≡ some acked) × (at < acked))

busy-is_active :
    (at : Time) (i : ConsumerInfo)
    → (i.push_bound ≡ true)
      ⊎ (pos 0 <ℤ i.num_waiting)
      ⊎ ((acked : Time) × (i.last_active ≡ some acked) × (at < acked))
    → is_active i at ≢ ""
unfolding is_active
busy-is_active at i busy e = elim (Bool-cases i.push_bound) [
  | inl bound ↦ cons-ne-nil _ _ (rw (bound, is_active) at e)
  | inr free ↦ elim (Bool-cases (ltb_ℤ (pos 0) i.num_waiting)) [
    | inl waits ↦ cons-ne-nil _ _ (rw (free, waits, is_active) at e)
    | inr calm ↦ elim busy [
      | inl bound ↦ cc
      | inr (inl waiting) ↦ ground (arith, waiting, calm)
      | inr (inr (acked, known, later)) ↦
          let after : is_after acked at ≡ true = ground (arith, later) in
          cons-ne-nil _ _ (rw (free, calm, known, after, is_active) at e)
    ]
  ]
]

IsKept-IsIdle :
    (opts : Options) (at : Time) (t : Target) (i : ConsumerInfo)
    → IsKept opts at t i
    → ¬ IsIdle opts at t i
IsKept-IsIdle opts at t i (inl protected) idle = protected idle.unprotected
IsKept-IsIdle opts at t i (inr busy) idle = busy-is_active at i busy idle.inactive

-- What keeps a consumer from being deleted: a dry run, no entry of the manifest that names it and is
-- not skipped, or a protection or activity of its own.
abbrev pub IsSpared : Manifest → Options → Target → Option ConsumerInfo → Type 0
IsSpared m opts t o =
    (opts.dry_run ≡ true)
    ⊎ (¬ IsListed m t)
    ⊎ ((i : ConsumerInfo) × (o ≡ some i) × IsKept opts m.generated_at t i)

module _ (S : Server) (find : S.State → Target → Option ConsumerInfo) (lawful : IsLawful S find)
    (opts : Options) (m : Manifest) (t : Target) (o : Option ConsumerInfo)
    (spared : IsSpared m opts t o) where
  asks :
      (u : Target) (w : Session S)
      → find w.state t ≡ o
      → find (fetch_consumer_info S u w).1.state t ≡ o
  unfolding fetch_consumer_info
  asks u w h = lawful.info_keeps w.state u t ∙ h

  not_cleared :
      (u : Target) (w : Session S) (i : ConsumerInfo)
      → find w.state t ≡ o
      → IsListed m u
      → (fetch_consumer_info S u w).0 ≡ found i
      → IsIdle opts m.generated_at u i
      → opts.dry_run ≡ false
      → t ≢ u
  unfolding fetch_consumer_info
  not_cleared u w i h listed x idle real e = elim spared [
    | inl dry ↦ cc
    | inr (inl unlisted) ↦ unlisted (subst (IsListed m) (sym e) listed)
    | inr (inr (j, known, kept)) ↦
        let (answer, no_error) = fetched-eq-found (S.info w.state u).0 i x in
        let there : find w.state u ≡ some i = lawful.info_true w.state u i answer no_error in
        let same : i ≡ j = cc (known, h, there, ap (find w.state) e) in
        IsKept-IsIdle opts m.generated_at t j kept (
          subst (IsIdle opts m.generated_at t) same
            (subst (λ v. IsIdle opts m.generated_at v i) (sym e) idle))
  ]

  deletes :
      (c : String) (e : Entry) (w : Session S) (i : ConsumerInfo)
      → Own m c e
      → find w.state t ≡ o
      → e.skip ≡ false
      → (fetch_consumer_info S (at_key c e) w).0 ≡ found i
      → IsIdle opts m.generated_at (at_key c e) i
      → opts.dry_run ≡ false
      → find (delete_consumer S (at_key c e) (fetch_consumer_info S (at_key c e) w).1).1.state t ≡ o
  unfolding delete_consumer
  deletes c e w i (member, key) h s x idle real =
      let u = at_key c e in
      lawful.delete_keeps _ u t
        (not_cleared u w i h (e, member, s, ap (λ k. at_key k e) key) x idle real)
      ∙ asks u w h

  kept : Keeps S opts m.generated_at (Own m) (λ w _. find w.state t ≡ o)
  kept = record {
    dial = λ c w r h. lawful.connect_keeps w.state c t ∙ h;
    close = λ c w r h. h;
    unreachable = λ c text e w r _ h. h;
    entry = λ c e w r q h.
        apply_entry_cases S c opts m.generated_at e w r (λ w' _. find w'.state t ≡ o)
          (record {
            skipped = λ _. h;
            absent = λ _ _. asks _ w h;
            unknown = λ text _ _. asks _ w h;
            owned = λ i _ _ _. asks _ w h;
            busy = λ i _ _ _. asks _ w h;
            previewed = λ i _ _ _ _. asks _ w h;
            refused = λ i text s x idle real _. deletes c e w i q h s x idle real;
            removed = λ i s x idle real _. deletes c e w i q h s x idle real;
          });
  }

-- Over a lawful server `Apply` leaves a consumer as it was in a dry run, if no entry of the manifest
-- that is not skipped names it, and if it is protected, push-bound, has pull waiters or has acked
-- since the manifest was generated, whatever the manifest says.
pub apply_spares :
    (S : Server) (find : S.State → Target → Option ConsumerInfo)
    → IsLawful S find
    → (order : List String) (m : Manifest) (opts : Options) (w : Session S) (t : Target)
    → IsSpared m opts t (find w.state t)
    → find (apply S order m opts w).0.state t ≡ find w.state t
apply_spares S find lawful order m opts w t spared =
    apply-keeps S order m opts (kept S find lawful opts m t (find w.state t) spared)
      (In-All m.entries m.entries (λ e i. i)) w refl
