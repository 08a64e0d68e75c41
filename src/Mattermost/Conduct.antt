-- ===== src/Mattermost/Conduct.antt =====
-- What a session of the listener posts and changes.
use natsie.Base.{
  String, List, [], ◌∷◌, some, string_eq, ◌≡◌, ◌≢◌, refl, ap, sym, ◌∙◌, arith, ◌⊎◌, inl, inr, In,
  All, All-mono, Option-cases,
}
use natsie.Base.Result.{ok, Result-cases}
use natsie.Chat.{dispatch}
use natsie.Chat.Api.{Deps, Clock, World}
use natsie.Chat.Confined.{dispatch-IsProposal}
use natsie.Mattermost.{
  Config, Ids, Post, Event, other_event, unreadable, posted, handle_event, match_trigger,
  websocket_url,
}
use natsie.Mattermost.Events.{IsAddressed, handle_event-IsAddressed}
use natsie.Mattermost.Sessions.{
  Client, handshake, Signal, done, ping_timeout, channel_closed, event, react, pump, session,
  then_posts,
}

module _ (d : Deps) (c : Config) where
  react-handle_event :
      (s : Ids) (clock : Clock) (ev : Event) (w : World)
      → (react d c s clock ev w).0
        ≡ handle_event (λ trigger argv. (dispatch d clock trigger argv w).0) c s ev
  unfolding react handle_event
  react-handle_event s clock other_event w = refl
  react-handle_event s clock unreadable w = refl
  react-handle_event s clock (posted p) w =
      elim (Option-cases (match_trigger c.trigger p.message)) [
        | inl e ↦ ground (arith, e)
        | inr (argv, e) ↦ ground (arith, e)
      ]

  -- The post answers one that came in.
  abbrev pub IsAnswer : Ids → List Signal → Post → Type 0
  IsAnswer s signals r =
      (clock : Clock) × (p : Post) × In (event clock (posted p)) signals
      × IsAddressed c s p
      × (r.channel ≡ s.channel)
      × (r.root ≡ p.id)
      × (r.message ≢ "")

  -- A post asks for a scan.
  abbrev pub IsAsked : Ids → List Signal → Type 0
  IsAsked s signals =
      (clock : Clock) × (p : Post) × (ctx : String) × (rest : List String) × In
        (event clock (posted p)) signals
      × IsAddressed c s p
      × (match_trigger c.trigger p.message ≡ some ("scan" ∷ ctx ∷ rest))

  react-IsAnswer :
      (s : Ids) (clock : Clock) (ev : Event) (w : World) (signals : List Signal) {r : Post}
      → (react d c s clock ev w).0 ≡ some r
      → IsAnswer s (event clock ev ∷ signals) r
  unfolding react
  react-IsAnswer s clock other_event w signals e = absurd cc
  react-IsAnswer s clock unreadable w signals e = absurd cc
  react-IsAnswer s clock (posted p) w signals e =
      let same = sym (react-handle_event s clock (posted p) w) ∙ e in
      let (asked, here, root, text) =
        handle_event-IsAddressed (λ trigger argv. (dispatch d clock trigger argv w).0) c s p same in
      (clock, p, inl refl, asked, here, root, text)

  react-fs :
      (s : Ids) (clock : Clock) (ev : Event) (w : World) (signals : List Signal)
      → ((react d c s clock ev w).1.fs ≡ w.fs) ⊎ IsAsked s (event clock ev ∷ signals)
  unfolding react match_trigger
  react-fs s clock other_event w signals = inl refl
  react-fs s clock unreadable w signals = inl refl
  react-fs s clock (posted p) w signals = elim (string_eq.dec p.channel s.channel) [
    | no n ↦ inl (ground arith)
    | yes here ↦ elim (string_eq.dec p.user s.bot_user) [
      | yes u ↦ inl (ground arith)
      | no other ↦ elim (Option-cases (match_trigger c.trigger p.message)) [
        | inl e ↦ inl (ground (arith, e))
        | inr (argv, e) ↦ elim (dispatch-IsProposal d clock c.trigger argv w) [
          | inl same ↦ inl (ground (arith, e, same))
          | inr (ctx, rest, rows, a, _, _, _) ↦ inr (
            clock,
            p,
            ctx,
            rest,
            inl refl,
            record { here = here; from_other = other; triggered = ground (arith, e) },
            e ∙ ap some a,
          )
        ]
      ]
    ]
  ]

  abbrev IsConfined : Ids → List Signal → World → World → List Post → Type 0
  IsConfined s signals w w' posts =
      All (IsAnswer s signals) posts × ((w'.fs ≡ w.fs) ⊎ IsAsked s signals)

  then_posts-IsConfined :
      (s : Ids) (clock : Clock) (ev : Event) (signals : List Signal) (w w' : World)
      (posts : List Post)
      → IsConfined s signals (react d c s clock ev w).1 w' posts
      → IsConfined s
          (event clock ev ∷ signals)
          w
          w'
          (then_posts d c (react d c s clock ev w).0 posts)
  then_posts-IsConfined s clock ev signals w w' posts (answers, files) = (
    elim (Option-cases (react d c s clock ev w).0) [
      | inl e ↦ rw e later
      | inr (r, e) ↦ rw e (react-IsAnswer s clock ev w signals e, later)
    ],
    elim (react-fs s clock ev w signals) [
      | inr asked ↦ inr asked
      | inl same ↦ elim files [
        | inl e ↦ inl (e ∙ same)
        | inr (k, p, ctx, rest, i, a, h) ↦ inr (k, p, ctx, rest, inr i, a, h)
      ]
    ],
  )
    where
      later : All (IsAnswer s (event clock ev ∷ signals)) posts
      later = All-mono (λ r (k, p, i, a, b, e, h). (k, p, inr i, a, b, e, h)) posts answers

  pump-IsConfined :
      (s : Ids) (signals : List Signal) (w : World)
      → IsConfined s signals w (pump d c s signals w).1 (pump d c s signals w).2
  unfolding pump
  pump-IsConfined s [] w = (tt, inl refl)
  pump-IsConfined s (done ∷ signals) w = (tt, inl refl)
  pump-IsConfined s (ping_timeout ∷ signals) w = (tt, inl refl)
  pump-IsConfined s (channel_closed ∷ signals) w = (tt, inl refl)
  pump-IsConfined s (event clock ev ∷ signals) w =
      let w1 = (react d c s clock ev w).1 in
      let (_, w', posts) = pump d c s signals w1 in
      then_posts-IsConfined s clock ev signals w w' posts (pump-IsConfined s signals w1)

-- A session of the listener posts only answers to posts that came in during it, of its channel, by
-- other users, that begin with the trigger; each answer goes to that channel, in the thread of the post,
-- and is not empty. No file changes, unless one of these posts asks for a scan of a context; and nothing
-- is posted or changed at all, unless the handshake finds the channel.
pub session-IsConfined :
    (d : Deps) (c : Config) (rest : Client) (signals : List Signal) (w : World)
    → let (_, w', posts) = session d c rest signals w in
      ((w' ≡ w) × (posts ≡ []))
      ⊎ ((s : Ids) × (handshake rest c ≡ ok s)
          × All (IsAnswer d c s signals) posts
          × ((w'.fs ≡ w.fs) ⊎ IsAsked d c s signals))
unfolding session
session-IsConfined d c rest signals w = elim (Result-cases (handshake rest c)) [
  | inr (e, h) ↦ inl (rw (h, session) (refl, refl))
  | inl (s, h) ↦
      let (answers, files) = pump-IsConfined d c s signals w in
      elim (Option-cases (rest.dial (websocket_url c.server) c.token)) [
        | inr (e, f) ↦ inl (rw (h, f, session) (refl, refl))
        | inl f ↦ inr (s, h, rw (h, f, session) answers, rw (h, f, session) files)
      ]
]
