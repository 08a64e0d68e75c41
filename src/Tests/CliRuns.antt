-- ===== src/Tests/CliRuns.antt =====
-- Commands of the command line over a cluster with one stale consumer.
use natsie.Base.{
  String, true, false, List, [], ◌∷◌, none, some, ◌≡◌, ◌≢◌, refl, string_eq, ℕ_eq, All, ◌⊎◌, ◌==◌,
  eq→==,
}
use natsie.Base.Int.{pos}
use natsie.Base.Result.{Result, ok, err}
use natsie.Cleanup.Guarded.{IsGuarded}
use natsie.Cli.Api.{Env, World, unknown_format}
use natsie.Cli.Consumer.{
  ScanFlags, guarded_config, scanned, manifest_of, scan_action, apply_action, read_manifest,
}
use natsie.Cli.Effects.{
  IsQuestion, IsUnknown, apply_action-IsGuarded, dry_run_asks, scan_action-unknown_format,
  applied_of,
}
use natsie.Cli.Gate.{scan_action-IsGated, IsDeletion, IsEmitted}
use natsie.Config.{Config}
use natsie.Go.Os.{folder, file}
use natsie.Manifest.{Manifest}
use natsie.Natsctx.{Host, ContextFile, connect}
use natsie.Protect
use natsie.Protect.{Protector}
use natsie.Scanner.Api.{JetStream, limits, loaded}
use natsie.Scanner.Classify.{Row, stale, error_row}
use natsie.Tests.Data.{one_document, memory, old_and_new, entry}

abbrev cluster : JetStream
cluster = record {
  name = "a";
  stream_names = ok ("ORDERS" ∷ []);
  load_stream = λ s. some (record {
    retention = limits;
    replicas = pos 1;
    max_age = pos 0;
    max_bytes = pos 0;
    max_msgs = pos 0;
  });
  stream_state = λ s. none;
  stream_cluster = λ s. none;
  consumer_names = λ s. some ("old" ∷ []);
  load_consumer = λ s c. loaded;
  latest_state = λ s c. some (record {
    num_pending = 20000;
    num_waiting = pos 0;
    push_bound = false;
    ack_last = none;
    created = 0;
    filter_subject = "orders";
    filter_subjects = [];
    metadata = [];
  });
  consumer_cluster = λ s c. none;
}

abbrev context_file : ContextFile
context_file = record {
  url = "nats://a";
  username = "bot";
  password = "";
  token = "";
  creds = "";
  nkey = "";
  tls_cert = "";
  tls_key = "";
  tls_ca = "";
  inbox_prefix = "";
  user_jwt = "";
  socks_proxy = "";
  jetstream_api_prefix = "";
}

abbrev host : Host (Result String JetStream)
host = record {
  home = ok "/h";
  unmarshal = λ text. ok context_file;
  dial = λ fs url options. ok (ok cluster);
  os_text = λ path e. "no such file";
  quote = λ s. s;
}

abbrev config : Config
config = record {
  defaults = record { min_pending = pos 0; min_idle = pos 0; format = "tsv" };
  contexts = [];
  protect = record { metadata_keys = []; patterns = [] };
  bot = record {
    schedules = [];
    notify = [];
    owners = [];
    store = "";
    audit_log = "";
    signing_key = "";
    base_url = "";
  };
}

abbrev env : Env
env = record {
  config = ok config;
  host = host;
  ctx = λ s. none;
  search_ctx = λ s c. none;
  yaml = one_document old_and_new;
  short = "dev";
  stdin = ok "doc";
  retention_text = λ r. "Limits";
  now = 2000;
  written_at = 2000;
  deleted_at = 2000;
}

-- `consumer scan --context a --delete --format xml`
abbrev flags : ScanFlags
flags = record {
  context = "a";
  peer_context = "";
  stream = "";
  min_pending = none;
  min_idle = none;
  format = "xml";
  emit_manifest = "";
  force = false;
  delete = true;
  dry_run = false;
}

abbrev world : World memory
world = record {
  fs = record {
    nodes =
        ("/h/.config/nats/context", folder) ∷ ("/h/.config/nats/context/a.json", file "{}") ∷ [];
    faults = λ p. none;
  };
  session = record {
    state =
        (
          record { cluster = "a"; stream = "ORDERS"; consumer = "old" },
          record {
            error = none;
            push_bound = false;
            num_waiting = pos 0;
            metadata = [];
            last_active = none;
          },
        )
        ∷ [];
    log = [];
  };
  stderr = [];
}

abbrev order : List String
order = "a" ∷ []

abbrev guard : Protector
guard = record { keys = natsie.Protect.default_metadata_key ∷ []; patterns = [] }

configured : guarded_config env ≡ ok (config, guard)
unfolding guarded_config natsie.Protect.new
configured = refl

abbrev row : Row
row = record (error_row "a" "ORDERS" "old") {
  status = stale;
  num_pending = pos 20000;
  filter_subject = "orders";
}

found : scanned env world.fs config guard flags ≡ ok (row ∷ [])
unfolding scanned connect string_eq natsie.Natsctx.has_separator natsie.Natsctx.is_local
    natsie.Go.Strings.has_prefix natsie.Go.Os.read_file natsie.Go.Os.stat natsie.Go.Os.find
    natsie.Cli.Consumer.peer_of natsie.Cli.Api.manager_in natsie.Scanner.Scan.scan
    natsie.Cli.Consumer.scan_options natsie.Scanner.Scan.report
    natsie.Scanner.Renames.detect_renames natsie.Scanner.Classify.status_eq
    natsie.Scanner.Classify.classify natsie.Scanner.Api.to_int64
    natsie.Scanner.Classify.meets_thresholds natsie.Scanner.Classify.filter_subject
    natsie.Protect.reason natsie.Protect.effective_keys natsie.Protect.key_reason
    natsie.Protect.lookup
found = refl

some_entries :
    (manifest_of memory env config guard flags 2000 (row ∷ [])).entries ≡ entry "old" ∷ []
unfolding natsie.Bot.build_manifest_of_scan natsie.Scanner.Classify.status_eq string_eq
    natsie.Go.Time.truncate_second
some_entries = refl

no_error : (applied_of memory env order flags world config guard (row ∷ [])).2 ≡ none
unfolding natsie.Cleanup.apply natsie.Cleanup.apply_clusters
no_error = refl

scan_action-IsGated_example :
    let w' = (scan_action memory env order flags world).1 in
    ((w'.session ≡ world.session) ⊎ IsDeletion memory env flags world w')
    × ((w'.fs ≡ world.fs) ⊎ IsEmitted memory env flags world w')
scan_action-IsGated_example = scan_action-IsGated memory env order flags world refl

apply_action-IsGuarded_example :
    let w' = (apply_action memory env order ("-" ∷ []) false world).1 in
    (w' ≡ world)
    ⊎ ((path : String) × (m : Manifest) × (cfg : Config) × (p : Protector) × ("-" ∷ [] ≡ path ∷ [])
        × (read_manifest memory env world.fs path ≡ ok m)
        × (guarded_config env ≡ ok (cfg, p))
        × (w'.fs ≡ world.fs)
        × IsGuarded (record { dry_run = false; protect = some p }) m w'.session.log)
apply_action-IsGuarded_example = apply_action-IsGuarded memory env order ("-" ∷ []) false world refl

dry_run_asks_example :
    All IsQuestion
      (scan_action memory env order (record flags { dry_run = true }) world).1.session.log
    × All IsQuestion (apply_action memory env order ("-" ∷ []) true world).1.session.log
dry_run_asks_example =
    dry_run_asks memory env order ("-" ∷ []) (record flags { dry_run = true }) world refl refl

differ : (a b : String) → (a == b) ≡ false → a ≢ b
differ a b f e = let same : (a == b) ≡ true = eq→== a b e in cc

xml-IsUnknown : IsUnknown "xml"
unfolding string_eq
xml-IsUnknown = (differ _ _ refl, differ _ _ refl, differ _ _ refl, differ _ _ refl)

scan_action-unknown_format_example :
    ((scan_action memory env order flags world).0 ≡ err (unknown_format "xml"))
    × ((scan_action memory env order flags world).1.session
        ≡ (applied_of memory env order flags world config guard (row ∷ [])).0)
scan_action-unknown_format_example =
    scan_action-unknown_format memory env order flags world config guard (row ∷ []) (entry "old") []
      xml-IsUnknown refl refl configured found some_entries no_error
