-- ===== src/Bot/Serve.antt =====
-- internal/cmd/bot/serve.go: the start of the bot, up to the start of the clock.
use natsie.Base.{String, true, List, [], ◌∷◌, Option, none, some}
use natsie.Base.Result.{Result, ok, err, ◌>>=◌}
use natsie.Approve.{Mac}
use natsie.Bot
use natsie.Bot.{Schedule, validate}
use natsie.Bot.Dispatch.{World, Dispatcher, build_dispatcher}
use natsie.Bot.Jobs.{Clock, run_job}
use natsie.Bot.Run.{Settings}
use natsie.Cleanup.Nats.{Server}
use natsie.Config.{Config}
use natsie.Go.Os.{Fs}
use natsie.Manifest.{Yaml}
use natsie.Metrics.{Metrics}
use natsie.Protect
use natsie.Protect.{Protector}
use natsie.Scanner.Api.{JetStream}
use natsie.Scheduler
use natsie.Scheduler.{Job, Scheduler}
use natsie.Store.Dial.{Url, DialError, dial}
use natsie.Store.{File}

-- What a run of a job takes from outside: the orders of the clusters in its dispatches and its
-- deletions, and the readings of the clock.
pub record Readings : Type 0 where
  pub clusters : List String
  pub order : List String
  pub clock : Clock

-- What `serve` takes from outside: `neturl.Parse`, `notify.Dial`, the cron package, the error of opening
-- the audit log, and what the runs need.
pub record Outside : Type 1 where
  pub parse_url : String → Result String Url
  pub dial_sink : String → Result String String
  pub cron : String → Option String
  pub open_log : String → Option String
  pub connect : String → Result String JetStream
  pub ctx : String → Option String
  pub yaml : Yaml
  pub mac : Mac
  pub short : String

pub data Error : Type 0 where
  not_valid : natsie.Bot.Error → Error
  no_store : DialError → Error
  bad_protect : natsie.Protect.Error → Error
  no_dispatcher : String → Error
  no_audit_log : String → Error
  no_job : String → natsie.Scheduler.Error → Error

abbrev pub or_error {ℓ} : {E : Type 0} {A : Type ℓ} → (E → Error) → Result E A → Result Error A
or_error f (ok a) = ok a
or_error f (err e) = err (f e)

abbrev pub unless_some : {E : Type 0} → (E → Error) → Option E → Result Error (Unit {0})
unless_some f none = ok tt
unless_some f (some e) = err (f e)

-- What the runs are given.
abbrev pub settings_of : Outside → Config → File → Protector → Dispatcher → Settings
settings_of o cfg store guard dispatch = record {
  dial = o.connect;
  ctx = o.ctx;
  yaml = o.yaml;
  mac = o.mac;
  store = store;
  dispatch = dispatch;
  base_url = cfg.bot.base_url;
  signing_key = cfg.bot.signing_key;
  guard = some guard;
  short = o.short;
}

-- `serve` from the dispatcher to the audit log.
unfoldable pub dispatched : Outside → Config → File → Protector → Result Error Settings
dispatched o cfg store guard =
    or_error no_dispatcher (build_dispatcher o.dial_sink cfg.bot) >>= λ dispatch.
    unless_some no_audit_log (o.open_log cfg.bot.audit_log) >>= λ _.
    ok (settings_of o cfg store guard dispatch)

-- `serve` from the protector to the audit log.
unfoldable pub built : Outside → Config → File → Result Error Settings
unfolding dispatched
built o cfg store = or_error bad_protect (natsie.Protect.new cfg.protect) >>= dispatched o cfg store

module _ (S : Server) where
  abbrev pub BotJob : Type 0
  BotJob = Job Readings (World S × Metrics)

  abbrev pub BotScheduler : Type 0
  BotScheduler = Scheduler Readings (World S × Metrics)

  -- The job of a schedule: the name and the specification are those of the schedule for every kind.
  abbrev pub build_job : Settings → Schedule → BotJob
  build_job b s = record {
    name = s.name;
    spec = s.cron;
    run = some (λ r w. run_job S b r.clusters r.order r.clock s w);
  }

  -- The loop over the schedules.
  unfoldable pub add_jobs :
      (String → Option String) → Settings → List Schedule → BotScheduler → Result Error BotScheduler
  add_jobs cron b [] sched = ok sched
  add_jobs cron b (s ∷ ss) sched =
      or_error (no_job s.name) (natsie.Scheduler.add cron (build_job b s) sched)
      >>= add_jobs cron b ss

  -- `serve` from the scheduler on.
  unfoldable pub with_jobs : Outside → Config → Settings → Result Error (Settings × BotScheduler)
  unfolding add_jobs
  with_jobs o cfg b =
      add_jobs o.cron b cfg.bot.schedules (record { entries = []; logs = true }) >>= λ sched.
      ok (b, sched)

  -- `serve`, up to the start of the clock: the settings of the runs, and the scheduler with its jobs.
  unfoldable pub start : Outside → Config → Fs → Result Error (Settings × BotScheduler) × Fs
  unfolding built with_jobs
  start o cfg fs = elim (validate cfg.bot) [
    | some e ↦ (err (not_valid e), fs)
    | none ↦
        let (store, fs') = dial o.parse_url fs cfg.bot.store in
        (or_error no_store store >>= built o cfg >>= with_jobs o cfg, fs')
  ]
