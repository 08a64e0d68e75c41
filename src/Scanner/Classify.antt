-- ===== src/Scanner/Classify.antt =====
-- scanner.go: the status of one consumer.
use natsie.Base.{
  String, Bool, true, false, not, ◌&&◌, ◌||◌, List, Option, none, some, ◌==◌, ◌!=◌, Eq, string_eq,
  ℕ_eq, if◌then◌else◌,
}
use natsie.Base.Int.{ℤ, pos, ltb_ℤ, is_zero_ℤ}
use natsie.Go.Sort.{sort_slice}
use natsie.Go.Strings.{join, less}
use natsie.Go.Time.{Time, Duration, is_zero, sub}
use natsie.Protect.{Protector, reason}
use natsie.Scanner.Api.{JetStream, ConsumerState, not_found, load_failed, loaded, to_int64}

-- `Status`; `blank` is the empty text, for a peer that was not asked.
pub data Status : Type 0 where
  active stale ok absent error blank : Status

-- `Options`
pub record Options : Type 0 where
  pub stream : String
  pub min_pending : ℤ
  pub min_idle : Duration
  pub protect : Option Protector

pub record Row : Type 0 where
  pub cluster : String
  pub stream : String
  pub consumer : String
  pub status : Status
  pub num_pending : ℤ
  pub num_waiting : ℤ
  pub push_bound : Bool
  pub last_ack : Time
  pub idle : Duration
  pub peer_status : Status
  pub filter_subject : String
  pub renamed_to : String
  pub managed : String

-- A row with the zero values but for its names and status.
abbrev pub error_row : String → String → String → Row
error_row cluster stream consumer = record {
  cluster = cluster;
  stream = stream;
  consumer = consumer;
  status = error;
  num_pending = pos 0;
  num_waiting = pos 0;
  push_bound = false;
  last_ack = 0;
  idle = pos 0;
  peer_status = blank;
  filter_subject = "";
  renamed_to = "";
  managed = "";
}

-- `filterSubject`
unfoldable pub filter_subject : String → List String → String
filter_subject subject subjects =
    if subject != "" then subject else join (sort_slice less subjects) ","

-- The ack floor's time, or the zero time.
abbrev pub last_ack_of : ConsumerState → Time
last_ack_of s = elim s.ack_last [ none ↦ 0 | some t ↦ t ]

unfoldable pub idle_of : Time → Time → Time → Duration
idle_of now last_ack created =
    if not (is_zero last_ack)
    then sub now last_ack
    else if not (is_zero created)
    then sub now created
    else pos 0

-- The second `switch` of `classify`.
unfoldable pub status_of : Time → Duration → ConsumerState → Status
status_of now min_idle s =
    let last_ack = last_ack_of s in
    if s.push_bound || ltb_ℤ (pos 0) s.num_waiting
    then active
    else if not (is_zero last_ack) && ltb_ℤ (sub now last_ack) min_idle
    then active
    else if is_zero_ℤ (to_int64 s.num_pending) && is_zero last_ack
    then ok
    else stale

-- `classify`
unfoldable pub classify : JetStream → String → String → Time → Options → Row
unfolding status_of idle_of
classify js stream consumer now opts = elim (js.load_consumer stream consumer) [
  | loaded ↦ elim (js.latest_state stream consumer) [
    | none ↦ error_row js.name stream consumer
    | some s ↦ record {
      cluster = js.name;
      stream = stream;
      consumer = consumer;
      status = status_of now opts.min_idle s;
      num_pending = to_int64 s.num_pending;
      num_waiting = s.num_waiting;
      push_bound = s.push_bound;
      last_ack = last_ack_of s;
      idle = idle_of now (last_ack_of s) s.created;
      peer_status = blank;
      filter_subject = filter_subject s.filter_subject s.filter_subjects;
      renamed_to = "";
      managed = reason opts.protect stream consumer s.metadata;
    }
  ]
  | _ ↦ error_row js.name stream consumer
]

-- `peerStatus`
unfoldable pub peer_status : JetStream → String → String → Time → Options → Status
peer_status js stream consumer now opts = elim (js.load_consumer stream consumer) [
  | not_found ↦ absent
  | load_failed ↦ error
  | loaded ↦ elim (js.latest_state stream consumer) [
    | none ↦ error
    | some s ↦ if s.push_bound || ltb_ℤ (pos 0) s.num_waiting then active else elim s.ack_last [
      | none ↦ stale
      | some t ↦ if ltb_ℤ (sub now t) opts.min_idle then active else stale
    ]
  ]
]

Status-discrete : Discrete Status
Status-discrete = hlevel

instance unfoldable pub status_eq : Eq Status
unfolding Status-discrete
status_eq = record { dec = Status-discrete }

-- `meetsThresholds`
unfoldable pub meets_thresholds : Row → Options → Bool
meets_thresholds r opts =
    if r.status == active then true else not (ltb_ℤ r.num_pending opts.min_pending)
