-- ===== src/Cleanup/Nats.antt =====
-- The NATS side of cleanup.go: what a connection answers, and the log of the requests.
use natsie.Base.{
  ℕ, String, ◌<>◌, Bool, List, ◌∷◌, Option, none, some, ◌==◌, ℕ_eq, if◌then◌else◌, string_eq,
}
use natsie.Base.Int.{ℤ}
use natsie.Go.Strings.{itoa}
use natsie.Go.Time.{Time}
use natsie.Protect.{Metadata}

-- A consumer of a stream of a cluster.
pub record Target : Type 0 where
  pub cluster : String
  pub stream : String
  pub consumer : String

-- `jsAPIError`
pub record ApiError : Type 0 where
  pub code : ℕ
  pub err_code : ℕ
  pub description : String

-- `consumerInfo`
pub record ConsumerInfo : Type 0 where
  pub error : Option ApiError
  pub push_bound : Bool
  pub num_waiting : ℤ
  pub metadata : Metadata
  pub last_active : Option Time

-- `consumerDeleteResponse`
pub record DeleteResponse : Type 0 where
  pub success : Bool
  pub error : Option ApiError

-- What `nc.Request` and the decoding of its answer give.
pub data Reply (A : Type 0) : Type 0 where
  failed : String → Reply A
  undecodable : String → Reply A
  decoded : A → Reply A

-- The connector and the connections. Whatever else happens on the clusters between two requests
-- is part of the step to the next state. `connect` gives the error of a cluster that cannot be
-- dialed, and `cancelled` is `ctx.Err()`.
pub record Server : Type 1 where
  pub State : Type 0
  pub cancelled : State → Option String
  pub connect : State → String → Option String × State
  pub info : State → Target → Reply ConsumerInfo × State
  pub delete : State → Target → Reply DeleteResponse × State

-- What `fetchConsumerInfo` returns: the second result, the error, or the first.
pub data Fetched : Type 0 where
  missing : Fetched
  broken : String → Fetched
  found : ConsumerInfo → Fetched

pub data Request : Type 0 where
  dialed : String → Request
  closed : String → Request
  asked : Target → Fetched → Request
  deletion : Target → Request

-- The newest request comes first.
pub record Session (S : Server) : Type 0 where
  pub state : S.State
  pub log : List Request

-- `errCodeNotFound`
abbrev pub err_code_not_found : ℕ
err_code_not_found = 10014

unfoldable pub api_text : ApiError → String
api_text e = "nats api " <> itoa e.code <> "/" <> itoa e.err_code <> ": " <> e.description

unfoldable pub fetched : Reply ConsumerInfo → Fetched
fetched (failed e) = broken ("request: " <> e)
fetched (undecodable e) = broken ("decode: " <> e)
fetched (decoded info) = elim info.error [
  | none ↦ found info
  | some e ↦ if e.err_code == err_code_not_found then missing else broken (api_text e)
]

-- The error of `deleteConsumer`, if it has one.
unfoldable pub delete_error : Reply DeleteResponse → Option String
delete_error (failed e) = some ("request: " <> e)
delete_error (undecodable e) = some ("decode: " <> e)
delete_error (decoded resp) = elim resp.error [
  | some e ↦ some (api_text e)
  | none ↦ if resp.success then none else some "delete returned success=false"
]

module _ (S : Server) where
  -- `fetchConsumerInfo`
  unfoldable pub fetch_consumer_info : Target → Session S → Fetched × Session S
  fetch_consumer_info t w =
      let (reply, s) = S.info w.state t in
      let f = fetched reply in (f, record { state = s; log = asked t f ∷ w.log })

  -- `deleteConsumer`
  unfoldable pub delete_consumer : Target → Session S → Option String × Session S
  delete_consumer t w =
      let (reply, s) = S.delete w.state t in
      (delete_error reply, record { state = s; log = deletion t ∷ w.log })
