-- ===== src/Cli/Consumer.antt =====
-- internal/cmd/consumer/scan.go and apply.go.
use natsie.Base.{
  String, ◌<>◌, Bool, List, [], ◌∷◌, Option, none, some, ◌==◌, ◌!=◌, string_eq, length,
  if◌then◌else◌,
}
use natsie.Base.Int.{ℤ}
use natsie.Base.Result.{Result, ok, err}
use natsie.Bot.{build_manifest_of_scan, status_text}
use natsie.Cleanup
use natsie.Cleanup.Nats.{Server}
use natsie.Config.{Config}
use natsie.Go.Duration.{duration_string}
use natsie.Go.Os.{Fs}
use natsie.Go.Strings.{itoa, itoa_int}
use natsie.Go.Time.{Time, Duration, truncate_second}
use natsie.Manifest.{Manifest, write, read, read_from}
use natsie.Natsctx.{Conn, connect}
use natsie.Protect
use natsie.Protect.{Protector}
use natsie.Scanner.Api.{JetStream}
use natsie.Scanner.Classify.{Row, Options}
use natsie.Scanner.Scan
use natsie.Cli.Api.{
  Env, World, Error, bad_config, bad_protect, scan_failed, not_written, not_read, apply_failed,
  not_connected, no_peer, no_peer_manager, Printed, say, outcome_lines, format_of, render,
  manager_in, usage,
}

-- The flags of `consumer scan`; the two thresholds may be left out.
pub record ScanFlags : Type 0 where
  pub context : String
  pub peer_context : String
  pub stream : String
  pub min_pending : Option ℤ
  pub min_idle : Option Duration
  pub format : String
  pub emit_manifest : String
  pub force : Bool
  pub delete : Bool
  pub dry_run : Bool

abbrev or_default {ℓ} : {A : Type ℓ} → A → Option A → A
or_default a none = a
or_default a (some b) = b

unfoldable pub scan_options : Config → Protector → ScanFlags → Options
scan_options cfg guard flags = record {
  stream = flags.stream;
  min_pending = or_default cfg.defaults.min_pending flags.min_pending;
  min_idle = or_default cfg.defaults.min_idle flags.min_idle;
  protect = some guard;
}

-- `cfg.Contexts[name].Peer`; a context that is not there has no peer.
unfoldable pub peer_in : String → List (String × String) → String
peer_in ctx [] = ""
peer_in ctx ((c, peer) ∷ cs) = if c == ctx then peer else peer_in ctx cs

unfoldable pub peer_of : Config → ScanFlags → String
unfolding peer_in
peer_of cfg flags =
    if flags.peer_context == "" then peer_in flags.context cfg.contexts else flags.peer_context

-- The configuration and the protector that it gives.
unfoldable pub guarded_config : Env → Result Error (Config × Protector)
guarded_config env = elim env.config [
  | err e ↦ err (bad_config e)
  | ok cfg ↦ elim (natsie.Protect.new cfg.protect) [
    | err e ↦ err (bad_protect e)
    | ok guard ↦ ok (cfg, guard)
  ]
]

-- The connection to the peer, if there is one.
unfoldable pub peer_conn :
    Env → Fs → String → Result Error (Option (Conn (Result String JetStream)))
peer_conn env fs peer =
    if peer == ""
    then ok none
    else elim (connect env.host fs peer) [ err e ↦ err (no_peer peer e) | ok nc ↦ ok (some nc) ]

-- `jsm.New(peer.Conn)`
unfoldable pub peer_manager :
    Option (Conn (Result String JetStream)) → Result Error (Option JetStream)
peer_manager none = ok none
peer_manager (some nc) = elim nc.conn [
  | err e ↦ err (no_peer_manager e)
  | ok js ↦ ok (some (record js { name = nc.name }))
]

-- The scan over the two connections.
unfoldable pub scan_over :
    Env
    → Options
    → Conn (Result String JetStream)
    → Option (Conn (Result String JetStream))
    → Result Error (List Row)
unfolding peer_manager
scan_over env opts nc peer = elim (manager_in nc) [
  | err e ↦ err e
  | ok js ↦ elim (peer_manager peer) [
    | err e ↦ err e
    | ok p ↦ elim (natsie.Scanner.Scan.scan js p env.now opts env.ctx) [
      | err e ↦ err (scan_failed e)
      | ok rows ↦ ok rows
    ]
  ]
]

-- The action of `consumer scan`, up to its rows.
unfoldable pub scanned : Env → Fs → Config → Protector → ScanFlags → Result Error (List Row)
unfolding peer_conn scan_over
scanned env fs cfg guard flags = elim (connect env.host fs flags.context) [
  | err e ↦ err (not_connected flags.context e)
  | ok nc ↦ elim (peer_conn env fs (peer_of cfg flags)) [
    | err e ↦ err e
    | ok peer ↦ scan_over env (scan_options cfg guard flags) nc peer
  ]
]

-- The cells of the table of `consumer scan`.
unfoldable pub scan_cells : Row → List String
scan_cells r =
    r.stream
    ∷ r.consumer
    ∷ status_text r.status
    ∷ itoa_int r.num_pending
    ∷ duration_string (truncate_second r.idle)
    ∷ status_text r.peer_status
    ∷ r.renamed_to
    ∷ r.managed
    ∷ []

abbrev pub scan_header : List String
scan_header =
    "stream" ∷ "consumer" ∷ "status" ∷ "pending" ∷ "idle" ∷ "peer_status" ∷ "renamed_to" ∷ "managed"
    ∷ []

module _ (S : Server) (env : Env) where
  -- The manifest of the rows, at the time when it is built.
  abbrev pub manifest_of : Config → Protector → ScanFlags → Time → List Row → Manifest
  manifest_of cfg guard flags at rows =
      build_manifest_of_scan env.short at rows flags.context (peer_of cfg flags)
        (scan_options cfg guard flags)

  -- `--emit-manifest`
  unfoldable pub emit : Config → Protector → ScanFlags → List Row → World S → Option Error × World S
  emit cfg guard flags rows w =
      let m = manifest_of cfg guard flags env.written_at rows in
      let (r, fs) = write env.yaml w.fs flags.emit_manifest m flags.force in
      let w' : World S = record w { fs = fs } in
      let done : Option Error × World S = elim r [
        | err e ↦ (some (not_written e), w')
        | ok _ ↦ (
          none,
          say
              (("wrote manifest "
                  <> (flags.emit_manifest
                      <> (" (" <> (itoa (length m.entries) <> " stale entries)\n"))))
                ∷ [])
              w',
        )
      ] in
      if flags.emit_manifest != "" then done else (none, w)

  -- What `deleteStale` and `consumer apply` do with a manifest.
  unfoldable pub apply_manifest :
      List String → Manifest → Bool → Protector → World S → Option Error × World S
  apply_manifest order m dry guard w =
      let (session, r, e) =
        natsie.Cleanup.apply S order m (record { dry_run = dry; protect = some guard }) w.session in
      let w' = say (outcome_lines r) (record w { session = session }) in
      (elim e [ none ↦ none | some text ↦ some (apply_failed text) ], w')

  -- `deleteStale`; `order` is the order of the clusters in `Apply`.
  unfoldable pub delete_stale :
      List String → Config → Protector → ScanFlags → List Row → World S → Option Error × World S
  unfolding apply_manifest
  delete_stale order cfg guard flags rows w =
      let m = manifest_of cfg guard flags env.deleted_at rows in
      elim m.entries [
        | [] ↦ (none, say ("nothing to delete\n" ∷ []) w)
        | _ ∷ _ ↦ apply_manifest order m flags.dry_run guard w
      ]

  -- The rest of the action, with its rows: the manifest, the deletions, and what is printed.
  unfoldable pub finish :
      List String
      → Config
      → Protector
      → ScanFlags
      → List Row
      → World S
      → Result Error (Printed Row) × World S
  unfolding emit delete_stale
  finish order cfg guard flags rows w =
      let (failure, w1) = emit cfg guard flags rows w in
      let (failure', w2) =
        if flags.delete then delete_stale order cfg guard flags rows w1 else (none, w1) in
      let printed = render scan_header scan_cells (format_of flags.format cfg) rows in
      elim failure [
        | some e ↦ (err e, w1)
        | none ↦ elim failure' [ some e ↦ (err e, w2) | none ↦ (printed, w2) ]
      ]

  -- The action of `consumer scan`.
  unfoldable pub scan_action :
      List String → ScanFlags → World S → Result Error (Printed Row) × World S
  unfolding finish scanned guarded_config
  scan_action order flags w = elim (guarded_config env) [
    | err e ↦ (err e, w)
    | ok (cfg, guard) ↦ elim (scanned env w.fs cfg guard flags) [
      | err e ↦ (err e, w)
      | ok rows ↦ finish order cfg guard flags rows w
    ]
  ]

  -- The manifest that `consumer apply` reads.
  unfoldable pub read_manifest : Fs → String → Result Error Manifest
  read_manifest fs path =
      elim (if path == "-" then read_from env.yaml env.stdin else read env.yaml fs path) [
        | err e ↦ err (not_read e)
        | ok m ↦ ok m
      ]

  -- The action of `consumer apply`.
  unfoldable pub apply_action : List String → List String → Bool → World S → Option Error × World S
  unfolding apply_manifest read_manifest guarded_config
  apply_action order (path ∷ []) dry w = elim (read_manifest w.fs path) [
    | err e ↦ (some e, w)
    | ok m ↦ elim (guarded_config env) [
      | err e ↦ (some e, w)
      | ok (cfg, guard) ↦ apply_manifest order m dry guard w
    ]
  ]
  apply_action order _ dry w = (some usage, w)
