-- ===== src/Scanner/Owner.antt =====
-- internal/scanner/owner.go: which consumer owns a subject.
pub mod Latest
use natsie.Base.{
  ℕ, String, ◌<>◌, Bool, true, false, not, List, [], ◌∷◌, ◌++◌, Option, none, some, ◌==◌, ◌!=◌, Eq,
  string_eq, ℕ_eq, bool_eq, if◌then◌else◌, ◌≡◌, ◌≢◌, refl, arith, All, All-at, In, Bool-cases, inl,
  inr, ◌⊎◌, All-append,
}
use natsie.Base.Int.{ℤ}
use natsie.Base.Result.{Result, ok, err}
use natsie.Go.Sort.{sort_slice, All-sort_slice, IsSorted, sort_slice-IsSorted}
use natsie.Go.Strings.{less}
use natsie.Go.Time.{Time, Duration, is_after}
use natsie.Natsctx.{Conn}
use natsie.Scanner.Api.{JetStream}
use natsie.Scanner.Classify.{Status, active, Options, Row, classify, status_eq}

-- `OwnerMatch`
pub record OwnerMatch : Type 0 where
  pub cluster : String
  pub stream : String
  pub consumer : String
  pub status : Status
  pub num_pending : ℤ
  pub last_ack : Time
  pub idle : Duration

abbrev pub match_of : String → String → String → Row → OwnerMatch
match_of cluster stream consumer r = record {
  cluster = cluster;
  stream = stream;
  consumer = consumer;
  status = r.status;
  num_pending = r.num_pending;
  last_ack = r.last_ack;
  idle = r.idle;
}

-- The loop over the consumers of a stream.
unfoldable pub consumer_matches :
    JetStream → Time → Options → String → String → List String → List OwnerMatch
consumer_matches js now opts subject stream [] = []
consumer_matches js now opts subject stream (c ∷ cs) =
    let rest = consumer_matches js now opts subject stream cs in
    let r = classify js stream c now opts in
    if r.filter_subject != subject then rest else match_of js.name stream c r ∷ rest

unfoldable pub stream_matches : JetStream → Time → Options → String → String → List OwnerMatch
unfolding consumer_matches
stream_matches js now opts subject stream = elim (js.load_stream stream) [
  | none ↦ []
  | some _ ↦ elim (js.consumer_names stream) [
    | none ↦ []
    | some cs ↦ consumer_matches js now opts subject stream cs
  ]
]

-- The loop over the streams of a connection; `ctx` is what `ctx.Err()` says there. The matches
-- found by then come with the error.
unfoldable pub streams_matches :
    JetStream
    → Time
    → Options
    → (String → Option String)
    → String
    → List String
    → List OwnerMatch × Option String
unfolding stream_matches
streams_matches js now opts ctx subject [] = ([], none)
streams_matches js now opts ctx subject (s ∷ names) =
    let rest = streams_matches js now opts ctx subject names in
    elim (ctx s) [
      | some e ↦ ([], some e)
      | none ↦ (stream_matches js now opts subject s ++ rest.0, rest.1)
    ]

-- What ends the search: a connection without a manager, or the context.
pub data Stop : Type 0 where
  no_manager : String → Stop
  cancelled : String → Stop

-- The loop over the connections, whose managers are those of `jsm.New`; `ctx` takes the connection's
-- name too.
unfoldable pub conns_matches :
    List (Conn (Result String JetStream))
    → Time
    → Options
    → (String → String → Option String)
    → String
    → List OwnerMatch × Option Stop
unfolding streams_matches
conns_matches [] now opts ctx subject = ([], none)
conns_matches (nc ∷ conns) now opts ctx subject =
    let rest = conns_matches conns now opts ctx subject in
    elim nc.conn [
      | err x ↦ ([], some (no_manager ("jsm.New(" <> (nc.name <> ("): " <> x)))))
      | ok js ↦ elim js.stream_names [
        | err _ ↦ rest
        | ok names ↦
            let (found, e) =
              streams_matches (record js { name = nc.name }) now opts (ctx nc.name) subject names in
            elim e [ some x ↦ (found, some (cancelled x)) | none ↦ (found ++ rest.0, rest.1) ]
      ]
    ]

-- The comparison of `sortOwnerMatches`.
unfoldable pub less_match : OwnerMatch → OwnerMatch → Bool
less_match a b =
    if (a.status == active) != (b.status == active)
    then a.status == active
    else if a.last_ack != b.last_ack
    then is_after a.last_ack b.last_ack
    else if a.cluster != b.cluster
    then less a.cluster b.cluster
    else if a.stream != b.stream
    then less a.stream b.stream
    else less a.consumer b.consumer

-- `ResolveOwner`. A cancelled search returns what it found, not sorted, with the error; one that meets
-- a connection without a manager returns only the error.
unfoldable pub resolve_owner :
    List (Conn (Result String JetStream))
    → Time
    → Options
    → (String → String → Option String)
    → String
    → List OwnerMatch × Option String
unfolding conns_matches less_match
resolve_owner conns now opts ctx subject =
    let (found, e) = conns_matches conns now opts ctx subject in
    elim e [
      | some (no_manager x) ↦ ([], some x)
      | some (cancelled x) ↦ (found, some x)
      | none ↦ (sort_slice less_match found, none)
    ]

-- `Owner`
unfoldable pub owner : List OwnerMatch → Option OwnerMatch
owner [] = none
owner (m ∷ ms) = if m.status == active then some m else owner ms
