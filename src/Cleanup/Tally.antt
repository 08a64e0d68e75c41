-- ===== src/Cleanup/Tally.antt =====
-- The counters of a result against its events.
use natsie.Base.{
  ℕ, ◌+◌, String, List, [], ◌∷◌, ◌++◌, ◌==◌, Eq, if◌then◌else◌, ◌≡◌, arith, length, length-append,
  count_if, count_if-append, All-of,
}
use natsie.Go.Time.{Time}
use natsie.Manifest.{Manifest}
use natsie.Cleanup.Nats.{Target, Server, Session}
use natsie.Cleanup.{
  Action, deleted, would, gone, skip, active, protect, failed, conn_fail, Event, event, Outcome,
  Options, empty, apply, count_deleted, count_skipped, count_preserved, count_protected, count_gone,
  count_failed,
}
use natsie.Cleanup.Cases.{apply_entry_cases}
use natsie.Cleanup.Rule.{Keeps, apply-keeps}

Action-discrete : Discrete Action
Action-discrete = hlevel

instance abbrev action_eq : Eq Action
action_eq = record { dec = Action-discrete }

-- How many events have the action.
pub tally : Action → List Event → ℕ
tally a evs = count_if (λ ev. ev.action == a) evs

tally-append :
    (a : Action) (evs : List Event) (ev : Event)
    → tally a (evs ++ (ev ∷ [])) ≡ (if ev.action == a then tally a evs + 1 else tally a evs)
unfolding tally
tally-append a evs ev = ground (arith, count_if-append (λ ev. ev.action == a) evs (ev ∷ []))

pub record IsTallied (r : Outcome) : Type 0 where
  pub deleted_total : r.deleted ≡ tally deleted r.events + tally would r.events
  pub skipped_total : r.skipped ≡ tally skip r.events
  pub preserved_total : r.preserved ≡ tally active r.events
  pub protected_total : r.protected ≡ tally protect r.events
  pub gone_total : r.gone ≡ tally gone r.events
  pub failed_total : r.failed ≡ tally failed r.events + tally conn_fail r.events
  pub all_counted :
      length r.events ≡ r.deleted + r.skipped + r.preserved + r.protected + r.gone + r.failed

-- The tallies after one more event.
abbrev Appended : Target → Action → String → List Event → Type 0
Appended t a d evs =
    let evs' = evs ++ (event t a d ∷ []) in
    (tally deleted evs' ≡ (if a == deleted then tally deleted evs + 1 else tally deleted evs))
    × (tally would evs' ≡ (if a == would then tally would evs + 1 else tally would evs))
    × (tally skip evs' ≡ (if a == skip then tally skip evs + 1 else tally skip evs))
    × (tally active evs' ≡ (if a == active then tally active evs + 1 else tally active evs))
    × (tally protect evs' ≡ (if a == protect then tally protect evs + 1 else tally protect evs))
    × (tally gone evs' ≡ (if a == gone then tally gone evs + 1 else tally gone evs))
    × (tally failed evs' ≡ (if a == failed then tally failed evs + 1 else tally failed evs))
    × (tally conn_fail evs'
        ≡ (if a == conn_fail then tally conn_fail evs + 1 else tally conn_fail evs))
    × (length evs' ≡ length evs + 1)

appended : (t : Target) (a : Action) (d : String) (evs : List Event) → Appended t a d evs
appended t a d evs =
    let ev = event t a d in
    (
      tally-append deleted evs ev,
      tally-append would evs ev,
      tally-append skip evs ev,
      tally-append active evs ev,
      tally-append protect evs ev,
      tally-append gone evs ev,
      tally-append failed evs ev,
      tally-append conn_fail evs ev,
      length-append evs (ev ∷ []),
    )

module _ (t : Target) (d : String) (r : Outcome) (h : IsTallied r) where
  deleted-IsTallied : IsTallied (count_deleted (event t deleted d) r)
  unfolding Action-discrete
  deleted-IsTallied = ground (arith, appended t deleted d r.events)

  would-IsTallied : IsTallied (count_deleted (event t would d) r)
  unfolding Action-discrete
  would-IsTallied = ground (arith, appended t would d r.events)

  skip-IsTallied : IsTallied (count_skipped (event t skip d) r)
  unfolding Action-discrete
  skip-IsTallied = ground (arith, appended t skip d r.events)

  active-IsTallied : IsTallied (count_preserved (event t active d) r)
  unfolding Action-discrete
  active-IsTallied = ground (arith, appended t active d r.events)

  protect-IsTallied : IsTallied (count_protected (event t protect d) r)
  unfolding Action-discrete
  protect-IsTallied = ground (arith, appended t protect d r.events)

  gone-IsTallied : IsTallied (count_gone (event t gone d) r)
  unfolding Action-discrete
  gone-IsTallied = ground (arith, appended t gone d r.events)

  failed-IsTallied : IsTallied (count_failed (event t failed d) r)
  unfolding Action-discrete
  failed-IsTallied = ground (arith, appended t failed d r.events)

  conn_fail-IsTallied : IsTallied (count_failed (event t conn_fail d) r)
  unfolding Action-discrete
  conn_fail-IsTallied = ground (arith, appended t conn_fail d r.events)

tallied :
    (S : Server) (opts : Options) (at : Time)
    → Keeps S opts at (λ _ _. Unit {0}) (λ _ r. IsTallied r)
tallied S opts at = record {
  dial = λ c w r h. h;
  close = λ c w r h. h;
  unreachable = λ c text e w r _ h. conn_fail-IsTallied _ text r h;
  entry = λ c e w r _ h.
      apply_entry_cases S c opts at e w r (λ _ r'. IsTallied r')
        (record {
          skipped = λ _. skip-IsTallied _ _ r h;
          absent = λ _ _. gone-IsTallied _ _ r h;
          unknown = λ text _ _. failed-IsTallied _ text r h;
          owned = λ i _ _ _. protect-IsTallied _ _ r h;
          busy = λ i _ _ _. active-IsTallied _ _ r h;
          previewed = λ i _ _ _ _. would-IsTallied _ _ r h;
          refused = λ i text _ _ _ _ _. failed-IsTallied _ _ r h;
          removed = λ i _ _ _ _ _. deleted-IsTallied _ _ r h;
        });
}

empty-IsTallied : IsTallied empty
unfolding tally
empty-IsTallied = omega arith

-- Each counter of the result of `Apply` is the number of the events with its actions (DELETED and
-- WOULD for the deletions, FAIL and CONN for the failures), and each event is counted once, for
-- every server, also when the context is cancelled half-way.
pub apply-IsTallied :
    (S : Server) (order : List String) (m : Manifest) (opts : Options) (w : Session S)
    → IsTallied (apply S order m opts w).1
apply-IsTallied S order m opts w =
    apply-keeps S order m opts (tallied S opts m.generated_at) (All-of _ (λ _. tt) m.entries) w
      empty-IsTallied
