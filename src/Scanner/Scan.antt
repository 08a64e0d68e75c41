-- ===== src/Scanner/Scan.antt =====
-- scanner.go: `Scan`.
use natsie.Base.{
  String, Bool, ◌&&◌, List, [], ◌∷◌, ◌++◌, Option, none, some, ◌==◌, ◌!=◌, string_eq, if◌then◌else◌,
  map,
}
use natsie.Base.Result.{Result, ok, err}
use natsie.Go.Time.{Time}
use natsie.Scanner.Api.{JetStream}
use natsie.Scanner.Classify.{
  Row, Options, error, error_row, classify, peer_status, meets_thresholds, status_eq,
}
use natsie.Scanner.Renames.{detect_renames}

-- The errors of `Scan` on the way: the names of the streams, and the context.
pub data Error : Type 0 where
  stream_names : String → Error
  cancelled : String → Error

abbrev classify_all : JetStream → String → Time → Options → List String → List Row
classify_all js stream now opts = map λ consumer. classify js stream consumer now opts

-- The rows of one stream.
unfoldable pub scan_stream : JetStream → Time → Options → String → List Row
scan_stream js now opts stream = elim (js.load_stream stream) [
  | none ↦ error_row js.name stream "" ∷ []
  | some _ ↦ elim (js.consumer_names stream) [
    | none ↦ error_row js.name stream "" ∷ []
    | some consumers ↦ classify_all js stream now opts consumers
  ]
]

-- The loop over the streams. `ctx` is what `ctx.Err()` says at each stream that is looked at.
unfoldable pub scan_streams :
    JetStream → Time → Options → (String → Option String) → List String → Result Error (List Row)
unfolding scan_stream
scan_streams js now opts ctx [] = ok []
scan_streams js now opts ctx (s ∷ names) =
    let rest = scan_streams js now opts ctx names in
    if opts.stream != "" && s != opts.stream then rest else elim (ctx s) [
      | some e ↦ err (cancelled e)
      | none ↦ elim rest [ err e ↦ err e | ok rows ↦ ok (scan_stream js now opts s ++ rows) ]
    ]

abbrev pub is_stream_error : Row → Bool
is_stream_error r = r.status == error && r.consumer == ""

abbrev pub with_peer : Option JetStream → Time → Options → Row → Row
with_peer none now opts r = r
with_peer (some peer) now opts r = record r {
  peer_status = peer_status peer r.stream r.consumer now opts;
}

-- The last loop: stream errors pass as they are, other rows by the thresholds.
unfoldable pub report : Option JetStream → Time → Options → List Row → List Row
report peer now opts [] = []
report peer now opts (r ∷ rows) =
    let rest = report peer now opts rows in
    if is_stream_error r
    then r ∷ rest
    else if meets_thresholds r opts
    then with_peer peer now opts r ∷ rest
    else rest

-- `Scan` over the managers that its callers make with `jsm.New`, which is where it fails without one.
unfoldable pub scan :
    JetStream
    → Option JetStream
    → Time
    → Options
    → (String → Option String)
    → Result Error (List Row)
unfolding scan_streams
scan js peer now opts ctx = elim js.stream_names [
  | err e ↦ err (stream_names e)
  | ok names ↦ elim (scan_streams js now opts ctx names) [
    | err e ↦ err e
    | ok all ↦ ok (report peer now opts (detect_renames all))
  ]
]
