-- ===== src/Mattermost/Sessions.antt =====
-- internal/infra/mattermost/listener.go and the start of the listener in internal/cmd/bot/serve.go: a
-- session, with its handshake and its events. The REST and WebSocket clients are parameters.
use natsie.Base.{
  String, ◌<>◌, List, [], ◌∷◌, ◌++◌, Option, none, some, ◌==◌, ◌!=◌, string_eq, if◌then◌else◌,
}
use natsie.Base.Result.{Result, ok, err}
use natsie.Chat.{dispatch}
use natsie.Chat.Api.{Deps, Clock, World}
use natsie.Go.Os.{OsError, Fs, read_file}
use natsie.Go.Strings.{trim_space}
use natsie.Mattermost.{
  Config, Missing, validate, Ids, Post, Event, other_event, unreadable, posted, match_trigger,
  reply_to, websocket_url,
}

-- What the clients answer: the ids of the bot's user, of a team and of a channel, and the error of the
-- dial of the WebSocket.
pub record Client : Type 0 where
  pub get_me : Result String String
  pub get_team_by_name : String → Result String String
  pub get_channel_by_name : String → String → Result String String
  pub dial : String → String → Option String

-- `handshake`
unfoldable pub handshake : Client → Config → Result String Ids
handshake rest c = elim rest.get_me [
  | err e ↦ err ("get_me: " <> e)
  | ok me ↦ elim (rest.get_team_by_name c.team) [
    | err e ↦ err ("get_team_by_name(" <> (c.team <> ("): " <> e)))
    | ok team ↦ elim (rest.get_channel_by_name c.channel team) [
      | err e ↦ err ("get_channel_by_name(" <> (c.team <> ("/" <> (c.channel <> ("): " <> e)))))
      | ok channel ↦ ok (record { channel = channel; bot_user = me })
    ]
  ]
]

-- What the loop of a session selects: the end of the context, a ping that is not answered, the end of
-- the events, or an event, with the readings of the clock while it is handled.
pub data Signal : Type 0 where
  done ping_timeout channel_closed : Signal
  event : Clock → Event → Signal

-- How far a session is: it waits for a signal, or has returned, with its error.
pub data Progress : Type 0 where
  waiting finished : Progress
  failed : String → Progress

module _ (d : Deps) (c : Config) where
  -- `handleEvent` with the changes that its command makes, and the post that it tries to send.
  unfoldable pub react : Ids → Clock → Event → World → Option Post × World
  react s clock other_event w = (none, w)
  react s clock unreadable w = (none, w)
  react s clock (posted p) w =
      if p.channel != s.channel
      then (none, w)
      else if p.user == s.bot_user
      then (none, w)
      else elim (match_trigger c.trigger p.message) [
        | none ↦ (none, w)
        | some argv ↦
            let (text, w') = dispatch d clock c.trigger argv w in
            (if text == "" then none else some (reply_to s p.id text), w')
      ]

  abbrev pub then_posts : Option Post → List Post → List Post
  then_posts none ps = ps
  then_posts (some p) ps = p ∷ ps

  -- The loop of `session`, with all that it posts.
  unfoldable pub pump : Ids → List Signal → World → Progress × World × List Post
  unfolding react
  pump s [] w = (waiting, w, [])
  pump s (done ∷ signals) w = (finished, w, [])
  pump s (ping_timeout ∷ signals) w = (failed "ping timeout", w, [])
  pump s (channel_closed ∷ signals) w = (failed "event channel closed", w, [])
  pump s (event clock ev ∷ signals) w =
      let (r, w') = react s clock ev w in
      let (e, w'', posts) = pump s signals w' in (e, w'', then_posts r posts)

  -- `session`
  unfoldable pub session : Client → List Signal → World → Progress × World × List Post
  unfolding handshake pump
  session rest signals w = elim (handshake rest c) [
    | err e ↦ (failed e, w, [])
    | ok s ↦ elim (rest.dial (websocket_url c.server) c.token) [
      | some e ↦ (failed ("new ws client: " <> e), w, [])
      | none ↦ pump s signals w
    ]
  ]

-- `config.Mattermost`
pub record Settings : Type 0 where
  pub enabled : natsie.Base.Bool
  pub server : String
  pub token : String
  pub token_file : String
  pub team : String
  pub channel : String
  pub trigger : String

pub data Error : Type 0 where
  unreadable_token : OsError → Error
  missing : Missing → Error

-- `startMattermostListener`: the configuration of the listener that it starts.
unfoldable pub start_listener : Fs → Settings → Result Error Config
start_listener fs m =
    let with_token : String → Result Error Config = λ token.
      let c : Config = record {
        server = m.server;
        token = token;
        team = m.team;
        channel = m.channel;
        trigger = m.trigger;
      } in
      elim (validate c) [ some x ↦ err (missing x) | none ↦ ok c ] in
    if m.token_file == "" then with_token m.token else elim (read_file fs m.token_file) [
      | err e ↦ err (unreadable_token e)
      | ok raw ↦ with_token (trim_space raw)
    ]
