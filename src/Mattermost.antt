-- ===== src/Mattermost.antt =====
-- internal/infra/mattermost/listener.go: the chat listener, without its REST and WebSocket clients.
pub mod Events
pub mod Sessions
pub mod Conduct
use natsie.Base.{
  ℕ, ◌*◌, String, ◌<>◌, Bool, true, false, not, ◌&&◌, List, [], ◌∷◌, ◌++◌, Option, none, some, ◌==◌,
  ◌!=◌, Eq, string_eq, ltb, if◌then◌else◌,
}
use natsie.Go.Strings.{trim_space, fields, has_prefix, trim_prefix}
use natsie.Go.Time.{second}

-- `Config`
pub record Config : Type 0 where
  pub server : String
  pub token : String
  pub team : String
  pub channel : String
  pub trigger : String

pub data Missing : Type 0 where
  no_server no_token no_team no_channel no_trigger : Missing

-- `Validate`: the error, if there is one.
unfoldable pub validate : Config → Option Missing
validate c =
    if c.server == ""
    then some no_server
    else if c.token == ""
    then some no_token
    else if c.team == ""
    then some no_team
    else if c.channel == ""
    then some no_channel
    else if c.trigger == ""
    then some no_trigger
    else none

abbrev pub backoff_min : ℕ
backoff_min = 2 * second

abbrev pub backoff_max : ℕ
backoff_max = 60 * second

abbrev pub next_backoff : ℕ → ℕ
next_backoff b = if ltb backoff_max (b * 2) then backoff_max else b * 2

-- How an iteration of the loop of `Run` ends: the context is cancelled before it, in or after the
-- session, or during the wait, or the session fails and the wait runs to its end.
pub data Session : Type 0 where
  cancelled closed cancelled_late cancelled_waiting dropped : Session

-- `Run`: the waits that run to their end, for the sessions that come. No iteration comes after one
-- that returns.
unfoldable pub run : ℕ → List Session → List ℕ
run b [] = []
run b (dropped ∷ ss) = b ∷ run (next_backoff b) ss
run b (_ ∷ ss) = []

-- `websocketURL`
unfoldable pub websocket_url : String → String
websocket_url url =
    if has_prefix url "https://"
    then "wss://" <> trim_prefix url "https://"
    else if has_prefix url "http://"
    then "ws://" <> trim_prefix url "http://"
    else url

-- `matchTrigger`
unfoldable pub match_trigger : String → String → Option (List String)
match_trigger trigger message =
    let msg = trim_space message in
    if not (has_prefix msg trigger)
    then none
    else some (fields (trim_space (trim_prefix msg trigger)))

-- `model.Post`, read from the JSON of an event.
pub record Post : Type 0 where
  pub id : String
  pub channel : String
  pub user : String
  pub message : String
  pub root : String

-- A WebSocket event: another kind than "posted", one without a post that can be read, or a post.
pub data Event : Type 0 where
  other_event : Event
  unreadable : Event
  posted : Post → Event

-- `session`
pub record Ids : Type 0 where
  pub channel : String
  pub bot_user : String

-- `reply`; the server gives the new post its id and its user.
abbrev pub reply_to : Ids → String → String → Post
reply_to s root text = record {
  id = "";
  channel = s.channel;
  user = "";
  message = text;
  root = root;
}

-- `handleEvent`: the post that goes out, if one does. `dispatch` is `chatops.Dispatch`, with the
-- trigger and the arguments.
unfoldable pub handle_event : (String → List String → String) → Config → Ids → Event → Option Post
unfolding match_trigger
handle_event dispatch c s other_event = none
handle_event dispatch c s unreadable = none
handle_event dispatch c s (posted p) =
    if p.channel != s.channel
    then none
    else if p.user == s.bot_user
    then none
    else elim (match_trigger c.trigger p.message) [
      | none ↦ none
      | some argv ↦
          let text = dispatch c.trigger argv in
          if text == "" then none else some (reply_to s p.id text)
    ]
