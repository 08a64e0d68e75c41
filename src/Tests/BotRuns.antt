-- ===== src/Tests/BotRuns.antt =====
-- A bot with one schedule, over the server in memory.
use natsie.Base.{
  ap, arith, ◌<>◌, Bool, true, false, List, [], ◌∷◌, none, some, ◌≡◌, ◌≢◌, refl, string_eq, ℕ_eq,
  All, ◌⊎◌, keep, map, ◌==◌,
}
use natsie.Base.Int.{pos}
use natsie.Base.Result.{ok}
use natsie.Go.Os.{folder, stat, find, write_file, put}
use natsie.Go.Time.{format_stamp, sub, truncate_second}
use natsie.Manifest.{Manifest, write}
use natsie.Cleanup.Guarded.{IsGuarded}
use natsie.Store.{get, valid_id}
use natsie.Store
use natsie.Go.Strings.{itoa, count}
use natsie.Scanner.Api.{JetStream, limits, loaded, to_int64}
use natsie.Scanner.Classify.{
  Row, Options, stale, error_row, status_eq, classify, meets_thresholds, filter_subject,
}
use natsie.Scanner.Scan.{scan, report}
use natsie.Scanner.Renames.{detect_renames}
use natsie.Protect.{reason}
use natsie.Bot.{
  Schedule, Config, validate, build_manifest, build_manifest_of_scan, entry_of, explained,
}
use natsie.Bot.Dispatch.{World}
use natsie.Bot.Run.{Settings, run_scan, scanned}
use natsie.Bot.Proposals.{is_proposed, proposals_split}
use natsie.Bot.Soundness.{IsSound}
use natsie.Bot.Serve.{Outside, build_job, start}
use natsie.Bot.Startup.{start-IsReady}
use natsie.Config
use natsie.Protect
use natsie.Protect.{Protector}
use natsie.Bot.Gate.{run_scan-gated, get-run_scan, run_scan-IsGuarded}
use natsie.Bot.Jobs.{Clock, run_job}
use natsie.Bot.Schedules.{IsDeletion, IsProposed, run_job-IsGated}
use natsie.Metrics.{Metrics}
use natsie.Tests.Data.{one_document, one_document-RoundTrips, memory}

abbrev schedule : Bool → Schedule
schedule auto = record {
  name = "daily";
  cron = "@daily";
  kind = "";
  context = "a";
  peer_context = "";
  stream = "";
  min_pending = pos 0;
  min_idle = pos 60;
  auto_delete = auto;
}

abbrev config : Config
config = record {
  schedules = schedule true ∷ [];
  notify = "stdout://" ∷ [];
  owners = [];
  store = "file:///m";
  audit_log = "";
  signing_key = "key";
  base_url = "https://natsie.example.com";
}

abbrev cluster : JetStream
cluster = record {
  name = "a";
  stream_names = ok ("ORDERS" ∷ []);
  load_stream = λ s. some (record {
    retention = limits;
    replicas = pos 1;
    max_age = pos 0;
    max_bytes = pos 0;
    max_msgs = pos 0;
  });
  stream_state = λ s. none;
  stream_cluster = λ s. none;
  consumer_names = λ s. some ("old" ∷ []);
  load_consumer = λ s c. loaded;
  latest_state = λ s c. some (record {
    num_pending = 5;
    num_waiting = pos 0;
    push_bound = false;
    ack_last = some 100;
    created = 50;
    filter_subject = "orders.new";
    filter_subjects = [];
    metadata = [];
  });
  consumer_cluster = λ s c. none;
}

-- The row of the scan at 1000, and the manifest that the bot makes of it.
abbrev scanned_row : Row
scanned_row = record (error_row "a" "ORDERS" "old") {
  status = stale;
  num_pending = pos 5;
  last_ack = 100;
  idle = pos 900;
  filter_subject = "orders.new";
}

abbrev proposal : Manifest
proposal = build_manifest "dev" 1000 (schedule false) (scanned_row ∷ [])

abbrev settings : Settings
settings = record {
  dial = λ c. ok cluster;
  ctx = λ s. none;
  yaml = one_document proposal;
  mac = λ key text. "good";
  store = record { dir = "/m" };
  dispatch = record { global = "stdout" ∷ []; router = []; per_owner = [] };
  base_url = "https://natsie.example.com";
  signing_key = "key";
  guard = none;
  short = "dev";
}

row_scanned : scanned settings 1000 (schedule false) ≡ ok (scanned_row ∷ [])
unfolding scanned string_eq scan report detect_renames status_eq classify ℕ_eq sub to_int64
    meets_thresholds filter_subject reason
row_scanned = refl

abbrev world : World memory
world = record {
  fs = record { nodes = ("/m", folder) ∷ []; faults = λ p. none };
  session = record {
    state =
        (
          record { cluster = "a"; stream = "ORDERS"; consumer = "old" },
          record {
            error = none;
            push_bound = false;
            num_waiting = pos 0;
            metadata = [];
            last_active = some 100;
          },
        )
        ∷ [];
    log = [];
  };
  audit = record { enabled = false; events = [] };
  posts = [];
}

run_scan-gated_example :
    (run_scan memory settings ("a" ∷ []) [] 1000 1000 1000 (schedule false) world).1.session
    ≡ world.session
run_scan-gated_example =
    run_scan-gated memory settings ("a" ∷ []) [] 1000 1000 1000 (schedule false) world refl

announced :
    (run_scan memory settings ("a" ∷ []) [] 1000 1000 1000 (schedule false) world).0 ≡ (1, none)
unfolding run_scan string_eq scan build_manifest report detect_renames status_eq classify ℕ_eq sub
    to_int64 meets_thresholds filter_subject reason Store.put valid_id format_stamp itoa count write
    stat find write_file put truncate_second
announced = refl

some_found : (run_scan memory settings ("a" ∷ []) [] 1000 1000 1000 (schedule false) world).0.0 ≢ 0
some_found e = omega (arith, ap (λ k. k.0) announced)

get-run_scan_example :
    (rows : List Row) × (scanned settings 1000 (schedule false) ≡ ok rows)
    × (get settings.yaml settings.store
          (run_scan memory settings ("a" ∷ []) [] 1000 1000 1000 (schedule false) world).1.fs
          ("daily" <> ("-" <> format_stamp 1000))
        ≡ ok (build_manifest "dev" 1000 (schedule false) rows))
get-run_scan_example =
    get-run_scan memory settings ("a" ∷ []) [] 1000 1000 1000 (schedule false) world
      (one_document-RoundTrips proposal) refl (ap (λ k. k.1) announced) some_found

run_scan-IsGuarded_example :
    let w' = (run_scan memory settings ("a" ∷ []) [] 1000 1000 1000 (schedule true) world).1 in
    (w'.fs ≡ world.fs)
    × ((w'.session ≡ world.session)
        ⊎ ((rows : List Row) × (scanned settings 1000 (schedule true) ≡ ok rows)
            × IsGuarded
                (record { dry_run = false; protect = settings.guard })
                (build_manifest "dev" 1000 (schedule true) rows)
                w'.session.log))
run_scan-IsGuarded_example =
    run_scan-IsGuarded memory settings ("a" ∷ []) [] 1000 1000 1000 (schedule true) world refl refl

abbrev metrics : Metrics
metrics = record {
  scan_duration = [];
  scan_runs = λ s k o. 0;
  scan_candidates = λ s k. none;
  apply_consumers = λ o. 0;
  approval_latency = [];
}

abbrev clock : Clock
clock = record { start = 999; at = 1000; generated = 1000; now = 1000; done = 1001 }

run_job-IsGated_example :
    let w' = (run_job memory settings ("a" ∷ []) [] clock (schedule true) (world, metrics)).1.0 in
    ((w'.session ≡ world.session)
      ⊎ IsDeletion memory settings ("a" ∷ []) [] clock (schedule true) w')
    × ((w'.fs ≡ world.fs) ⊎ IsProposed memory settings ("a" ∷ []) [] clock (schedule true) world w')
run_job-IsGated_example =
    run_job-IsGated memory settings ("a" ∷ []) [] clock (schedule true) world metrics refl

abbrev program : natsie.Config.Config
program = record {
  defaults = record { min_pending = pos 0; min_idle = pos 60; format = "tsv" };
  contexts = [];
  protect = record { metadata_keys = []; patterns = [] };
  bot = config;
}

abbrev outside : Outside
outside = record {
  parse_url = λ url. ok (record { scheme = "file"; path = "/m" });
  dial_sink = λ url. ok "stdout";
  cron = λ spec. none;
  open_log = λ path. none;
  connect = settings.dial;
  ctx = settings.ctx;
  yaml = settings.yaml;
  mac = settings.mac;
  short = "dev";
}

abbrev guarded : Settings
guarded = record settings {
  guard = some (record { keys = natsie.Protect.default_metadata_key ∷ []; patterns = [] });
}

started :
    (start memory outside program world.fs).0
    ≡ ok (guarded, record { entries = build_job memory guarded (schedule true) ∷ []; logs = true })
unfolding start validate string_eq natsie.Store.Dial.dial natsie.Store.new_file
    natsie.Go.Os.mkdir_all stat find natsie.Protect.new natsie.Bot.Dispatch.build_dispatcher
    natsie.Owners.new_router natsie.Scheduler.add
started = refl

start-IsReady_example :
    All IsSound config.schedules
    × All (λ s. outside.cron s.cron ≡ none) config.schedules
    × (build_job memory guarded (schedule true) ∷ []
        ≡ map (build_job memory guarded) config.schedules)
    × ((guard : Protector) × (natsie.Protect.new program.protect ≡ ok guard)
        × (guarded.guard ≡ some guard))
start-IsReady_example = start-IsReady memory outside program world.fs started

abbrev rows : List Row
rows = record (error_row "a" "ORDERS" "old") { status = stale } ∷ error_row "a" "ORDERS" "new" ∷ []

abbrev options : Options
options = record { stream = ""; min_pending = pos 0; min_idle = pos 60; protect = none }

proposals_split_example :
    ((build_manifest_of_scan "dev" 1000 rows "a" "" options).entries
      ≡ map explained (keep is_proposed rows))
    × ((build_manifest "dev" 1001 (schedule false) rows).entries
        ≡ map entry_of (keep (λ r. r.status == stale) rows))
proposals_split_example = proposals_split "dev" 1000 1001 (schedule false) "a" "" options rows
