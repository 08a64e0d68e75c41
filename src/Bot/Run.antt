-- ===== src/Bot/Run.antt =====
-- serve.go: the runs of the schedules.
use natsie.Base.{
  ℕ, String, ◌<>◌, false, ◌||◌, List, [], ◌∷◌, Option, none, some, ◌==◌, string_eq, ltb,
  if◌then◌else◌, length,
}
use natsie.Base.Result.{Result, ok, err}
use natsie.Go.Time.{Time, format_stamp}
use natsie.Approve.{Mac}
use natsie.Audit.{of_kind}
use natsie.Bot.{Schedule, build_manifest}
use natsie.Bot.Messages.{
  build_auto_delete_message, build_peer_check_message, build_stream_report_message,
}
use natsie.Cleanup.{apply, summary}
use natsie.Cleanup.Nats.{Server}
use natsie.Manifest.{Manifest, Yaml}
use natsie.Protect.{Protector}
use natsie.Scanner.Api.{JetStream}
use natsie.Scanner.Classify.{Row, Options}
use natsie.Scanner.Peers.{check_peers, ghost_peers}
use natsie.Scanner.Scan.{scan}
use natsie.Scanner.StreamReport.{report_streams, under_replicated, placement_skew}
use natsie.Store.{File, put}
use natsie.Bot.Dispatch.{Dispatcher, World, log_event, send, post}

-- The settings of the bot that a run takes: `dial` is `natsctx.Connect`, `ctx` is `ctx.Err()` at
-- each stream of a scan.
pub record Settings : Type 1 where
  pub dial : String → Result String JetStream
  pub ctx : String → Option String
  pub yaml : Yaml
  pub mac : Mac
  pub store : File
  pub dispatch : Dispatcher
  pub base_url : String
  pub signing_key : String
  pub guard : Option Protector
  pub short : String

abbrev err_text : Option String → String
err_text none = ""
err_text (some e) = e

-- `autoDelete`; `clusters` is the order in which `Apply` goes through its map.
unfoldable pub auto_delete :
    (S : Server)
    → Settings
    → List String
    → Schedule
    → Manifest
    → World S
    → (ℕ × Option String) × World S
auto_delete S b clusters s m w =
    let (session, r, e) =
      apply S clusters m (record { dry_run = false; protect = b.guard }) w.session in
    let w1 : World S = record w { session = session } in
    let w2 =
      log_event
        (record (of_kind "auto-delete") {
          schedule = s.name;
          entries = length m.entries;
          result = summary r;
          error = err_text e;
        })
        w1 in
    (
      (r.deleted, e),
      if ltb 0 r.deleted || ltb 0 r.failed
          then send b.dispatch.global (build_auto_delete_message s r) w2
          else w2,
    )

-- The end of `runScan` for a schedule that waits for approval. `now` is the time of the id.
unfoldable pub announce :
    {S : Server}
    → Settings
    → List String
    → Time
    → Schedule
    → Manifest
    → World S
    → (ℕ × Option String) × World S
announce {S = S} b order now s m w =
    let id = s.name <> ("-" <> format_stamp now) in
    let (r, fs) = put b.yaml b.store w.fs id m in
    let w1 : World S = record w { fs = fs } in
    elim r [
      | err _ ↦ ((0, some ("store manifest " <> id)), w1)
      | ok _ ↦ (
        (length m.entries, none),
        post b.mac b.dispatch s m id b.base_url b.signing_key order (
            log_event
              (record (of_kind "scan") {
                schedule = s.name;
                manifest = id;
                entries = length m.entries;
              })
              w1),
      )
    ]

-- The part of `runScan` after its scan, with the manifest of the rows.
unfoldable pub propose :
    (S : Server)
    → Settings
    → List String
    → List String
    → Time
    → Schedule
    → Manifest
    → World S
    → (ℕ × Option String) × World S
unfolding auto_delete announce
propose S b clusters order now s m w = elim m.entries [
  | [] ↦ ((0, none), log_event (record (of_kind "scan") { schedule = s.name }) w)
  | _ ∷ _ ↦ if s.auto_delete then auto_delete S b clusters s m w else announce b order now s m w
]

-- The scan of `runScan`: the two connections and `Scan`.
unfoldable pub scanned : Settings → Time → Schedule → Result String (List Row)
scanned b now s =
    let opts : Options = record {
      stream = s.stream;
      min_pending = s.min_pending;
      min_idle = s.min_idle;
      protect = b.guard;
    } in
    elim (b.dial s.context) [
      | err e ↦ err ("connect " <> (s.context <> (": " <> e)))
      | ok js ↦
          if s.peer_context == ""
          then (elim (scan js none now opts b.ctx) [ err _ ↦ err "scan" | ok rows ↦ ok rows ])
          else elim (b.dial s.peer_context) [
            | err e ↦ err ("connect peer " <> (s.peer_context <> (": " <> e)))
            | ok peer ↦ elim (scan js (some peer) now opts b.ctx) [
              | err _ ↦ err "scan"
              | ok rows ↦ ok rows
            ]
          ]
    ]

-- `runScan`. The scan, the manifest and the id read the clock one after the other.
unfoldable pub run_scan :
    (S : Server)
    → Settings
    → List String
    → List String
    → Time
    → Time
    → Time
    → Schedule
    → World S
    → (ℕ × Option String) × World S
unfolding propose scanned
run_scan S b clusters order at generated now s w = elim (scanned b at s) [
  | err e ↦ ((0, some e), w)
  | ok rows ↦ propose S b clusters order now s (build_manifest b.short generated s rows) w
]

-- `runPeerCheck`
unfoldable pub run_peer_check :
    (S : Server) → Settings → Schedule → World S → (ℕ × Option String) × World S
run_peer_check S b s w = elim (b.dial s.context) [
  | err e ↦ ((0, some e), w)
  | ok js ↦ elim (check_peers js b.ctx) [
    | err e ↦ ((0, some e), w)
    | ok rows ↦
        let ghosts = ghost_peers rows in
        let w1 =
          log_event (record (of_kind "peer-check") { schedule = s.name; entries = length ghosts })
            w in
        (
          (length ghosts, none),
          elim ghosts [
            | [] ↦ w1
            | g ∷ gs ↦ send b.dispatch.global (build_peer_check_message s (g ∷ gs)) w1
          ],
        )
  ]
]

-- `runStreamReport`
unfoldable pub run_stream_report :
    (S : Server) → Settings → Schedule → World S → (ℕ × Option String) × World S
run_stream_report S b s w = elim (b.dial s.context) [
  | err e ↦ ((0, some e), w)
  | ok js ↦
      let (rows, e) = report_streams js b.ctx s.stream in
      let under = under_replicated rows in
      let w1 =
        log_event (record (of_kind "stream-report") { schedule = s.name; entries = length under })
          w in
      elim e [
        | some x ↦ ((0, some x), w)
        | none ↦ (
          (length under, none),
          elim under [
            | [] ↦ w1
            | r ∷ rs ↦
                send b.dispatch.global
                  (build_stream_report_message s (r ∷ rs) (placement_skew rows)) w1
          ],
        )
      ]
]
