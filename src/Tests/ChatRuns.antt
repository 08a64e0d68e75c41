-- ===== src/Tests/ChatRuns.antt =====
-- The chat listener on a few posts.
use natsie.Base.{String, List, [], ◌∷◌, none, some, ◌≡◌, refl, string_eq, ℕ_eq, All}
use natsie.Go.Strings.{has_prefix, trim_space}
use natsie.Mattermost.{
  Config, Ids, Post, posted, handle_event, reply_to, Session, dropped, closed, run, backoff_min,
}
use natsie.Base.Result.{ok}
use natsie.Base.{◌⊎◌}
use natsie.Mattermost.Conduct.{IsAnswer, IsAsked, session-IsConfined}
use natsie.Mattermost.Sessions.{Client, Signal, event, channel_closed, handshake, session}
use natsie.Tests.CommandRuns.{clock, deps, world}
use natsie.Mattermost.Events.{IsWait, run-AllWait}

abbrev config : Config
config = record {
  server = "https://chat.example.com";
  token = "t";
  team = "ops";
  channel = "nats";
  trigger = "!natsie";
}

abbrev ids : Ids
ids = record { channel = "c1"; bot_user = "bot" }

abbrev asked : Post
asked = record { id = "p1"; channel = "c1"; user = "ann"; message = " !natsie list"; root = "" }

abbrev dispatch : String → List String → String
dispatch trigger argv = "no manifests in store"

answered :
    handle_event dispatch config ids (posted asked)
    ≡ some (reply_to ids "p1" "no manifests in store")
unfolding handle_event string_eq has_prefix trim_space ℕ_eq
answered = refl

abbrev server : Client
server = record {
  get_me = ok "bot";
  get_team_by_name = λ t. ok "t1";
  get_channel_by_name = λ n t. ok "c1";
  dial = λ url token. none;
}

-- A post of another user, the bot's answer to it, and the end of the connection.
abbrev signals : List Signal
signals =
    event clock (posted asked)
    ∷ event clock (posted (record (reply_to ids "p1" "no manifests in store") { user = "bot" }))
    ∷ channel_closed
    ∷ []

session-IsConfined_example :
    (((session deps config server signals world).1 ≡ world)
      × ((session deps config server signals world).2 ≡ []))
    ⊎ ((s : Ids) × (handshake server config ≡ ok s)
        × All (IsAnswer deps config s signals) (session deps config server signals world).2
        × (((session deps config server signals world).1.fs ≡ world.fs)
            ⊎ IsAsked deps config s signals))
session-IsConfined_example = session-IsConfined deps config server signals world

abbrev sessions : List Session
sessions = dropped ∷ dropped ∷ dropped ∷ dropped ∷ dropped ∷ dropped ∷ []

run-AllWait_example : All IsWait (run backoff_min (dropped ∷ dropped ∷ closed ∷ []))
run-AllWait_example = run-AllWait (dropped ∷ dropped ∷ closed ∷ [])
