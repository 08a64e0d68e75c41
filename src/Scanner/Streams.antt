-- ===== src/Scanner/Streams.antt =====
-- internal/scanner/streams.go: the streams that can grow without bound.
use natsie.Base.{
  ℕ, String, Bool, false, not, ◌&&◌, List, [], ◌∷◌, Option, none, some, if◌then◌else◌,
}
use natsie.Base.Int.{ℤ, pos, ltb_ℤ}
use natsie.Base.Result.{ok, err}
use natsie.Scanner.Api.{JetStream, StreamConfig, StreamState, limits}

-- `StreamRow`
pub record StreamRow : Type 0 where
  pub cluster : String
  pub stream : String
  pub replicas : ℤ
  pub messages : ℕ
  pub bytes : ℕ

-- `IsUnlimited`
unfoldable pub is_unlimited : StreamConfig → Bool
is_unlimited cfg = elim cfg.retention [
  | limits ↦
      not (ltb_ℤ (pos 0) cfg.max_age)
      && not (ltb_ℤ (pos 0) cfg.max_bytes)
      && not (ltb_ℤ (pos 0) cfg.max_msgs)
  | _ ↦ false
]

abbrev pub no_state : StreamState
no_state = record { msgs = 0; bytes = 0; consumers = 0 }

abbrev pub state_or_zero : Option StreamState → StreamState
state_or_zero none = no_state
state_or_zero (some s) = s

abbrev pub unlimited_row : JetStream → String → StreamConfig → StreamRow
unlimited_row js stream cfg =
    let state = state_or_zero (js.stream_state stream) in
    record {
      cluster = js.name;
      stream = stream;
      replicas = cfg.replicas;
      messages = state.msgs;
      bytes = state.bytes;
    }

-- The loop of `ScanUnlimitedStreams`; `ctx` is what `ctx.Err()` says at each stream.
unfoldable pub unlimited_rows :
    JetStream → (String → Option String) → List String → List StreamRow × Option String
unfolding is_unlimited
unlimited_rows js ctx [] = ([], none)
unlimited_rows js ctx (s ∷ names) =
    let rest = unlimited_rows js ctx names in
    elim (ctx s) [
      | some e ↦ ([], some e)
      | none ↦ elim (js.load_stream s) [
        | none ↦ rest
        | some cfg ↦ if is_unlimited cfg then (unlimited_row js s cfg ∷ rest.0, rest.1) else rest
      ]
    ]

-- `ScanUnlimitedStreams`
unfoldable pub scan_unlimited_streams :
    JetStream → (String → Option String) → List StreamRow × Option String
unfolding unlimited_rows
scan_unlimited_streams js ctx = elim js.stream_names [
  | err e ↦ ([], some e)
  | ok names ↦ unlimited_rows js ctx names
]
