-- ===== src/Tests/CommandRuns.antt =====
-- Commands of the chat and requests to the listener over a cluster with one stale consumer.
use natsie.Base.{
  arith, String, true, false, List, [], ◌∷◌, none, some, ◌≡◌, ◌≢◌, refl, string_eq, ℕ_eq, All, ◌⊎◌,
  length, ◌*◌, suc, ◌+◌,
}
use natsie.Base.Int.{pos}
use natsie.Base.Result.{ok, err}
use natsie.Go.Os.{folder, file, find, stat, write_file, put}
use natsie.Go.Strings.{itoa, count}
use natsie.Go.Time.{format_stamp, truncate_second}
use natsie.Manifest.{Manifest, write}
use natsie.Scanner.Api.{JetStream, limits, loaded}
use natsie.Scanner.Classify.{Row, stale, error_row, status_eq}
use natsie.Store.{get}
use natsie.Store
use natsie.Natsctx.{Host, ContextFile}
use natsie.Chat.{dispatch, help}
use natsie.Chat.Api.{Deps, Clock, World, Nats, Manager}
use natsie.Chat.Bars.{bars, breaks}
use natsie.Chat.Confined.{IsProposal, dispatch-IsProposal, proposal}
use natsie.Chat.Proposal.{get-propose}
use natsie.Chat.Render.{replace_char, md_table, human_int, human_bytes, cell_escape}
use natsie.Bot.{build_scan_manifest}
use natsie.Chat.Scan.{scan_options, propose, chat_id, format_scan_reply}
use natsie.Chat.Table.{IsRow, md_table-IsGrid}
use natsie.Approve
use natsie.Approve.{Listener}
use natsie.Approve.Router.{Request, slash, serve}
use natsie.Approve.Requests.{IsCommand, IsApproval, serve-IsConfined}
use natsie.Go.Float.{one_decimal}
use natsie.Tests.Data.{one_document, one_document-RoundTrips, memory}

abbrev cluster : JetStream
cluster = record {
  name = "a";
  stream_names = ok ("ORDERS" ∷ []);
  load_stream = λ s. some (record {
    retention = limits;
    replicas = pos 1;
    max_age = pos 0;
    max_bytes = pos 0;
    max_msgs = pos 0;
  });
  stream_state = λ s. none;
  stream_cluster = λ s. none;
  consumer_names = λ s. some ("old" ∷ []);
  load_consumer = λ s c. loaded;
  latest_state = λ s c. some (record {
    num_pending = 20000;
    num_waiting = pos 0;
    push_bound = false;
    ack_last = none;
    created = 0;
    filter_subject = "orders";
    filter_subjects = [];
    metadata = [];
  });
  consumer_cluster = λ s c. none;
}

abbrev manager : Manager
manager = record {
  stream_names = ok ("ORDERS" ∷ []);
  load_stream = λ s. err "no answer";
  scanned = cluster;
}

abbrev pub connection : Nats
connection = record {
  server_name = "n1";
  server_version = "2.10";
  rtt = pos 0;
  servers = [];
  discovered = [];
  connected_url = "nats://a";
  manager = ok manager;
}

abbrev pub context_file : ContextFile
context_file = record {
  url = "nats://a";
  username = "bot";
  password = "";
  token = "";
  creds = "";
  nkey = "";
  tls_cert = "";
  tls_key = "";
  tls_ca = "";
  inbox_prefix = "";
  user_jwt = "";
  socks_proxy = "";
  jetstream_api_prefix = "";
}

abbrev pub host : Host Nats
host = record {
  home = ok "/h";
  unmarshal = λ text. ok context_file;
  dial = λ fs url options. ok connection;
  os_text = λ path e. "no such file";
  quote = λ s. s;
}

abbrev pub clock : Clock
clock = record { now = 2000; generated = 2000; stamped = 2000 }

abbrev stale_row : Row
stale_row = record (error_row "a" "ORDERS" "old") { status = stale; num_pending = pos 20000 }

abbrev deps_with : Manifest → Deps
deps_with m = record {
  store = record { dir = "/m" };
  base_url = "https://natsie.example.com";
  signing_key = "key";
  host = host;
  yaml = one_document m;
  mac = λ key text. "good";
  short = "dev";
  ctx = λ s. none;
}

-- The document that the format of the run knows.
abbrev proposed : Manifest
proposed = build_scan_manifest "dev" 2000 "a" (scan_options "") (stale_row ∷ [])

abbrev pub deps : Deps
deps = deps_with proposed

abbrev pub world : World
world = record {
  fs = record {
    nodes =
        ("/m", folder)
        ∷ ("/h/.config/nats/context", folder)
        ∷ ("/h/.config/nats/context/a.json", file "{}")
        ∷ [];
    faults = λ p. none;
  };
  audit = record { enabled = true; events = [] };
}

help_of_nothing : (dispatch deps clock "/natsie" [] world).0 ≡ help "/natsie"
unfolding dispatch
help_of_nothing = refl

dispatch-IsProposal_example :
    IsProposal deps clock world
      ("scan" ∷ "a" ∷ [])
      (dispatch deps clock "/natsie" ("scan" ∷ "a" ∷ []) world).1
dispatch-IsProposal_example = dispatch-IsProposal deps clock "/natsie" ("scan" ∷ "a" ∷ []) world

stored :
    (natsie.Store.put deps.yaml deps.store world.fs
      (chat_id clock.stamped "a")
      (proposal deps clock "a" "" (stale_row ∷ []))).0
    ≡ ok tt
unfolding natsie.Store.put natsie.Store.valid_id write write_file stat find put itoa count string_eq
    ℕ_eq format_stamp build_scan_manifest status_eq truncate_second
stored = refl

get-propose_example :
    let (reply, w') = propose deps clock "a" "" (stale_row ∷ []) world in
    let id = chat_id clock.stamped "a" in
    let m = proposal deps clock "a" "" (stale_row ∷ []) in
    (get deps.yaml deps.store w'.fs id ≡ ok m)
    × ((j : String)
        → id ≢ j
        → get deps.yaml deps.store w'.fs j ≡ get deps.yaml deps.store world.fs j)
    × (reply ≡ format_scan_reply deps "a" id m (length m.entries))
unfolding status_eq
get-propose_example =
    get-propose deps clock "a" "" (stale_row ∷ []) world (one_document-RoundTrips proposed)
      (omega arith) stored

abbrev headers : List String
headers = "Name" ∷ "User" ∷ []

abbrev cells : List (List String)
cells = ("a|b" ∷ "x" ∷ []) ∷ ("…and 1 more" ∷ []) ∷ []

md_table-IsGrid_example :
    (bars false (md_table headers cells) ≡ (2 + length cells) * suc (length headers))
    × (breaks (md_table headers cells) ≡ 2 + length cells)
    × All (IsRow (length headers)) cells
unfolding cell_escape string_eq ℕ_eq replace_char
md_table-IsGrid_example =
    md_table-IsGrid "Name" ("User" ∷ []) cells (refl, (refl, tt))
      ((omega arith, omega arith), ((omega arith, omega arith), tt))

counts : (human_int 999 ≡ "999") × (human_int 1250 ≡ "1.2K") × (human_bytes 1536 ≡ "1.5 KiB")
unfolding human_int human_bytes one_decimal itoa
counts = (refl, refl, refl)

abbrev listener : Listener
listener = record {
  store = record { dir = "/m" };
  signing_key = "key";
  can_connect = true;
  has_metrics = false;
  protect = none;
}

abbrev requests_world : natsie.Approve.World memory
requests_world = record {
  fs = world.fs;
  session = record { state = []; log = [] };
  audit = world.audit;
  observed = [];
}

abbrev request : Request
request = slash (some (record { token = "key"; text = "scan a" }))

serve-IsConfined_example :
    let w' = (serve memory deps clock listener [] 2000 request requests_world).1 in
    ((w'.fs ≡ requests_world.fs) ⊎ IsCommand memory deps clock listener request requests_world w')
    × ((w'.session ≡ requests_world.session)
        ⊎ IsApproval memory deps clock listener request requests_world w')
serve-IsConfined_example =
    serve-IsConfined memory deps clock listener [] 2000 request requests_world refl
