-- ===== src/Mattermost/Events.antt =====
-- What the listener answers, and how long it waits.
use natsie.Base.{
  ℕ, ◌*◌, ◌≤◌, min, String, true, List, [], ◌∷◌, some, string_eq, ◌≡◌, ◌≢◌, refl, arith, All,
}
use natsie.Go.Strings.{trim_space, has_prefix}
use natsie.Mattermost.{
  Config, Ids, Post, posted, handle_event, match_trigger, Session, cancelled, closed,
  cancelled_late, cancelled_waiting, dropped, run, next_backoff, backoff_min, backoff_max,
}

-- What a post that is answered is like.
pub record IsAddressed (c : Config) (s : Ids) (p : Post) : Type 0 where
  pub here : p.channel ≡ s.channel
  pub from_other : p.user ≢ s.bot_user
  pub triggered : has_prefix (trim_space p.message) c.trigger ≡ true

-- The listener answers only a post of its channel, by another user, whose text begins with the
-- trigger after its leading spaces; the answer goes to that channel, in the thread of the post, and
-- is not empty.
pub handle_event-IsAddressed :
    (dispatch : String → List String → String) (c : Config) (s : Ids) (p : Post) {r : Post}
    → handle_event dispatch c s (posted p) ≡ some r
    → IsAddressed c s p × (r.channel ≡ s.channel) × (r.root ≡ p.id) × (r.message ≢ "")
unfolding handle_event match_trigger
handle_event-IsAddressed dispatch c s p e = (
  record { here = ground arith; from_other = ground arith; triggered = ground arith },
  ground arith,
  ground arith,
  ground arith,
)

abbrev pub IsWait : ℕ → Type 0
IsWait n = (backoff_min ≤ n) × (n ≤ backoff_max)

run-IsWait : (b : ℕ) (ss : List Session) → IsWait b → All IsWait (run b ss)
unfolding run
run-IsWait b [] h = tt
run-IsWait b (dropped ∷ ss) h = (h, run-IsWait (next_backoff b) ss (ground arith))
run-IsWait b (cancelled ∷ ss) h = tt
run-IsWait b (closed ∷ ss) h = tt
run-IsWait b (cancelled_late ∷ ss) h = tt
run-IsWait b (cancelled_waiting ∷ ss) h = tt

-- Waits that double up to the largest, one for each session.
abbrev pub waits_from : ℕ → List Session → List ℕ
waits_from b [] = []
waits_from b (s ∷ ss) = b ∷ waits_from (min (2 * b) backoff_max) ss

abbrev pub AreDropped : List Session → Type 0
AreDropped = All λ s. s ≡ dropped

-- For sessions that all drop, the waits from a given one on double up to 60 seconds.
pub run-waits : (b : ℕ) (ss : List Session) → AreDropped ss → run b ss ≡ waits_from b ss
unfolding run
run-waits b [] h = refl
run-waits b (s ∷ ss) h = rw h.0 (ground (arith, run-waits (next_backoff b) ss h.1))

-- Every wait between two sessions is of 2 to 60 seconds, however the sessions end.
pub run-AllWait : (ss : List Session) → All IsWait (run backoff_min ss)
run-AllWait ss = run-IsWait backoff_min ss (omega arith, omega arith)
