-- ===== src/Bot/Startup.antt =====
-- What holds once the bot has started.
use natsie.Base.{
  String, true, List, [], ◌∷◌, ◌++◌, Option, none, some, string_eq, ◌≡◌, refl, ap, sym, ◌∙◌, arith,
  All, map, Option-cases, inl, inr,
}
use mathlib.Core.List.{append_assoc, append-nil}
use natsie.Base.Result.{Result, ok, err, ◌>>=◌, chain-steps, ok-injective}
use natsie.Bot
use natsie.Bot.{Schedule, validate}
use natsie.Bot.Dispatch.{Dispatcher}
use natsie.Bot.Run.{Settings}
use natsie.Bot.Serve.{
  Outside, Error, or_error, bad_protect, no_store, no_job, BotScheduler, build_job, add_jobs, built,
  dispatched, with_jobs, settings_of, start, not_valid,
}
use natsie.Bot.Soundness.{IsSound, validate-IsSound}
use natsie.Cleanup.Nats.{Server}
use natsie.Config.{Config}
use natsie.Go.Os.{Fs}
use natsie.Protect
use natsie.Protect.{Protector}
use natsie.Scheduler.{add}
use natsie.Store.{File}
use natsie.Store.Dial.{dial}

or_error-eq-ok {ℓ} :
    {E : Type 0} {A : Type ℓ} (f : E → Error) (m : Result E A) {a : A}
    → or_error f m ≡ ok a
    → m ≡ ok a
or_error-eq-ok f (ok x) e = ap ok (ok-injective e)
or_error-eq-ok f (err x) e = absurd cc

module _ (S : Server) (b : Settings) (cron : String → Option String) where
  add-build_job :
      (s : Schedule) (sched : BotScheduler S) {sched' : BotScheduler S}
      → add cron (build_job S b s) sched ≡ ok sched'
      → (cron s.cron ≡ none) × (sched'.entries ≡ sched.entries ++ (build_job S b s ∷ []))
  unfolding add
  add-build_job s sched e = elim (string_eq.dec s.name "") [
    | yes n ↦ absurd (ground arith)
    | no n ↦ elim (Option-cases (cron s.cron)) [
      | inr (x, f) ↦ absurd (ground (arith, f))
      | inl f ↦ (f, ground (arith, f))
    ]
  ]

  add_jobs-entries :
      (ss : List Schedule) (sched : BotScheduler S) {sched' : BotScheduler S}
      → add_jobs S cron b ss sched ≡ ok sched'
      → All (λ s. cron s.cron ≡ none) ss
        × (sched'.entries ≡ sched.entries ++ map (build_job S b) ss)
  unfolding add_jobs
  add_jobs-entries [] sched e =
      (tt, ap (λ x. x.entries) (sym (ok-injective e)) ∙ sym (append-nil sched.entries))
  add_jobs-entries (s ∷ ss) sched e =
      let (next, added, later) =
        chain-steps (or_error (no_job s.name) (add cron (build_job S b s) sched))
          (add_jobs S cron b ss) e in
      let (valid, one) = add-build_job s sched (or_error-eq-ok (no_job s.name) _ added) in
      let (all_valid, others) = add_jobs-entries ss next later in
      (
        (valid, all_valid),
        others
            ∙ ap (λ x. x ++ map (build_job S b) ss) one
            ∙ append_assoc sched.entries (build_job S b s ∷ []) (map (build_job S b) ss),
      )

dispatched-guard :
    (o : Outside) (cfg : Config) (store : File) (guard : Protector) (m : Result Error Dispatcher)
    (n : Result Error (Unit {0})) {b : Settings}
    → (m >>= λ dispatch. n >>= λ _. ok (settings_of o cfg store guard dispatch)) ≡ ok b
    → b.guard ≡ some guard
dispatched-guard o cfg store guard (ok dispatch) (ok tt) e =
    sym (ap (λ x. x.guard) (ok-injective e))
dispatched-guard o cfg store guard (ok dispatch) (err x) e = absurd cc
dispatched-guard o cfg store guard (err x) n e = absurd cc

built-guard :
    (o : Outside) (cfg : Config) (store : File) {b : Settings}
    → built o cfg store ≡ ok b
    → (guard : Protector) × (natsie.Protect.new cfg.protect ≡ ok guard) × (b.guard ≡ some guard)
unfolding built dispatched
built-guard o cfg store e =
    let (guard, p, e1) =
      chain-steps (or_error bad_protect (natsie.Protect.new cfg.protect)) (dispatched o cfg store)
        e in
    (guard, or_error-eq-ok bad_protect _ p, dispatched-guard o cfg store guard _ _ e1)

with_jobs-entries :
    (S : Server) (o : Outside) (cfg : Config) (b' : Settings) {b : Settings}
    {sched : BotScheduler S}
    → with_jobs S o cfg b' ≡ ok (b, sched)
    → (b' ≡ b)
      × All (λ s. o.cron s.cron ≡ none) cfg.bot.schedules
      × (sched.entries ≡ map (build_job S b) cfg.bot.schedules)
unfolding with_jobs
with_jobs-entries S o cfg b' {b} e =
    let empty : BotScheduler S = record { entries = []; logs = true } in
    let (sched', added, same) =
      chain-steps (add_jobs S o.cron b' cfg.bot.schedules empty) (λ s. ok (b', s)) e in
    let both = ok-injective same in
    let (valid, entries) = add_jobs-entries S b' o.cron cfg.bot.schedules empty added in
    let settings : b' ≡ b = ap (λ x. x.0) both in
    (
      settings,
      valid,
      sym (ap (λ x. x.1.entries) both)
          ∙ entries
          ∙ ap (λ c. map (build_job S c) cfg.bot.schedules) settings,
    )

start-eq-ok :
    (S : Server) (o : Outside) (cfg : Config) (fs : Fs) {r : Settings × BotScheduler S}
    → (start S o cfg fs).0 ≡ ok r
    → (validate cfg.bot ≡ none)
      × ((store : File) × (b : Settings) × (built o cfg store ≡ ok b)
          × (with_jobs S o cfg b ≡ ok r))
unfolding start
start-eq-ok S o cfg fs {r} e = by_check (validate cfg.bot) refl
  where
    opened : Result Error Settings
    opened = or_error no_store (dial o.parse_url fs cfg.bot.store).0 >>= built o cfg

    by_check :
        (v : Option natsie.Bot.Error)
        → validate cfg.bot ≡ v
        → (validate cfg.bot ≡ none)
          × ((store : File) × (b : Settings) × (built o cfg store ≡ ok b)
              × (with_jobs S o cfg b ≡ ok r))
    by_check (some x) v =
        let refused : err (not_valid x) ≡ ok r = sym (rw (v, start) refl) ∙ e in absurd cc
    by_check none v =
        let chain : opened >>= with_jobs S o cfg ≡ ok r = sym (rw (v, start) refl) ∙ e in
        let (b, made, ran) = chain-steps opened (with_jobs S o cfg) chain in
        let (store, _, e2) =
          chain-steps (or_error no_store (dial o.parse_url fs cfg.bot.store).0) (built o cfg)
            made in
        (v, (store, b, e2, ran))

-- A bot that starts has a sound configuration, whose schedules all have a specification that cron accepts.
-- It has one job for each of them, in their order, and no others; each runs as `run_job`, and its
-- deletions are checked by the protector of the configuration.
pub start-IsReady :
    (S : Server) (o : Outside) (cfg : Config) (fs : Fs) {b : Settings} {sched : BotScheduler S}
    → (start S o cfg fs).0 ≡ ok (b, sched)
    → All IsSound cfg.bot.schedules
      × All (λ s. o.cron s.cron ≡ none) cfg.bot.schedules
      × (sched.entries ≡ map (build_job S b) cfg.bot.schedules)
      × ((guard : Protector) × (natsie.Protect.new cfg.protect ≡ ok guard) × (b.guard ≡ some guard))
start-IsReady S o cfg fs {b} {sched} e =
    let (v, (store, b', made, ran)) = start-eq-ok S o cfg fs e in
    let (same, valid, entries) = with_jobs-entries S o cfg b' ran in
    let (guard, p, guarded) = built-guard o cfg store made in
    (validate-IsSound cfg.bot v, valid, entries, (guard, p, sym (ap (λ x. x.guard) same) ∙ guarded))
