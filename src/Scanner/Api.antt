-- ===== src/Scanner/Api.antt =====
-- What scanner reads of JetStream through jsm.go. A scan asks for each thing once, so the answers
-- are functions of the names.
use natsie.Base.{ℕ, String, Bool, List, Option, ◌-◌, ◌^◌, ltb, if◌then◌else◌}
use natsie.Base.Int.{ℤ, pos, negsuc}
use natsie.Base.Result.{Result}
use natsie.Go.Time.{Time, Duration}
use natsie.Protect.{Metadata}

-- The part of `api.ConsumerInfo` that the source reads; `num_pending` is a uint64.
pub record ConsumerState : Type 0 where
  pub num_pending : ℕ
  pub num_waiting : ℤ
  pub push_bound : Bool
  pub ack_last : Option Time
  pub created : Time
  pub filter_subject : String
  pub filter_subjects : List String
  pub metadata : Metadata

-- `LoadConsumer`: the error "consumer not found", another error, or a consumer.
pub data Loaded : Type 0 where
  not_found : Loaded
  load_failed : Loaded
  loaded : Loaded

pub data Retention : Type 0 where
  limits interest work_queue : Retention

pub record StreamConfig : Type 0 where
  pub retention : Retention
  pub replicas : ℤ
  pub max_age : Duration
  pub max_bytes : ℤ
  pub max_msgs : ℤ

pub record StreamState : Type 0 where
  pub msgs : ℕ
  pub bytes : ℕ
  pub consumers : ℕ

-- `api.PeerInfo`
pub record PeerInfo : Type 0 where
  pub name : String
  pub current : Bool
  pub offline : Bool

-- `api.ClusterInfo`; a replica may be a nil pointer.
pub record ClusterInfo : Type 0 where
  pub leader : String
  pub replicas : List (Option PeerInfo)

-- A manager on one cluster, named after its context.
pub record JetStream : Type 0 where
  pub name : String
  pub stream_names : Result String (List String)
  pub load_stream : String → Option StreamConfig
  pub stream_state : String → Option StreamState
  pub stream_cluster : String → Option ClusterInfo
  pub consumer_names : String → Option (List String)
  pub load_consumer : String → String → Loaded
  pub latest_state : String → String → Option ConsumerState
  pub consumer_cluster : String → String → Option ClusterInfo

-- Go's `int64(n)` of a uint64.
unfoldable pub to_int64 : ℕ → ℤ
to_int64 n = if ltb n (2 ^ 63) then pos n else negsuc (2 ^ 64 - 1 - n)
