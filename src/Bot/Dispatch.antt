-- ===== src/Bot/Dispatch.antt =====
-- serve.go: the sinks, and the posts to them. A post that a sink refuses is only logged, so it is kept
-- as one that was tried.
use natsie.Base.{String, ◌<>◌, List, [], ◌∷◌, ◌++◌, ◌==◌, string_eq, if◌then◌else◌, map}
use natsie.Base.Result.{Result, ok, err}
use natsie.Go.Os.{Fs}
use natsie.Approve.{Mac}
use natsie.Audit.{AuditEvent, Trail, log}
use natsie.Bot.{Schedule, Config}
use natsie.Bot.Messages.{Message, build_message, build_owner_message}
use natsie.Cleanup.Nats.{Server, Session}
use natsie.Manifest.{Manifest, Entry}
use natsie.Owners.{Owner, OwnerConfig, new_router, group, group_of}

-- `dispatcher`; a sink is its name.
pub record Dispatcher : Type 0 where
  pub global : List String
  pub router : List Owner
  pub per_owner : List (String × List String)

unfoldable pub dial_notifiers :
    (String → Result String String) → List String → Result String (List String)
dial_notifiers dial [] = ok []
dial_notifiers dial (u ∷ urls) =
    let rest = dial_notifiers dial urls in
    elim (dial u) [
      | err e ↦ err ("notify url: " <> e)
      | ok n ↦ elim rest [ err e ↦ err e | ok ns ↦ ok (n ∷ ns) ]
    ]

unfoldable pub sinks_of : String → List (String × List String) → List String
sinks_of owner [] = []
sinks_of owner ((o, ns) ∷ m) = if o == owner then ns else sinks_of owner m

-- The map `perOwner`; a later owner of the same name takes the place of an earlier one.
unfoldable pub dial_owners :
    (String → Result String String)
    → List OwnerConfig
    → List (String × List String)
    → Result String (List (String × List String))
unfolding dial_notifiers
dial_owners dial [] m = ok m
dial_owners dial (o ∷ os) m = elim (dial_notifiers dial o.notify) [
  | err e ↦ err e
  | ok ns ↦ dial_owners dial os ((o.name, ns) ∷ m)
]

-- `buildDispatcher`; `dial` is `notify.Dial`, which gives the sink's name.
unfoldable pub build_dispatcher :
    (String → Result String String) → Config → Result String Dispatcher
unfolding dial_notifiers dial_owners
build_dispatcher dial b = elim (dial_notifiers dial b.notify) [
  | err e ↦ err e
  | ok global ↦ elim (new_router b.owners) [
    | err _ ↦ err "owners"
    | ok router ↦ elim (dial_owners dial b.owners []) [
      | err e ↦ err e
      | ok m ↦ ok (record { global = global; router = router; per_owner = m })
    ]
  ]
]

-- What a run reads and changes.
pub record World (S : Server) : Type 0 where
  pub fs : Fs
  pub session : Session S
  pub audit : Trail
  pub posts : List (String × Message)

abbrev pub log_event : {S : Server} → AuditEvent → World S → World S
log_event ev w = record w { audit = log ev w.audit }

abbrev pub send : {S : Server} → List String → Message → World S → World S
send sinks msg w = record w { posts = w.posts ++ map (λ n. (n, msg)) sinks }

-- One group; an owner without sinks or without entries is passed over.
unfoldable pub post_owner :
    {S : Server} → Schedule → String → List String → List Entry → World S → World S
post_owner s o [] es w = w
post_owner s o (n ∷ ns) [] w = w
post_owner s o (n ∷ ns) (e ∷ es) w = send (n ∷ ns) (build_owner_message s o (e ∷ es)) w

-- The loop over the groups, in the order `order` of the keys of the map.
unfoldable pub post_owners :
    {S : Server} → Dispatcher → Schedule → List Entry → List String → World S → World S
unfolding sinks_of post_owner
post_owners d s entries [] w = w
post_owners d s entries (o ∷ order) w =
    let sinks = sinks_of o d.per_owner in
    let theirs = group_of o (group d.router entries) in
    post_owners d s entries order (post_owner s o sinks theirs w)

-- `dispatcher.post`
unfoldable pub post :
    {S : Server}
    → Mac
    → Dispatcher
    → Schedule
    → Manifest
    → String
    → String
    → String
    → List String
    → World S
    → World S
unfolding post_owners
post {S = S} mac d s m id base_url key order w =
    let w' : World S = elim d.per_owner [ [] ↦ w | _ ∷ _ ↦ post_owners d s m.entries order w ] in
    send d.global (build_message mac s m id base_url key) w'
