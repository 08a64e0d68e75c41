-- ===== src/Approve/Router.antt =====
-- internal/infra/httpsrv/server.go, handlers.go and slash.go: the requests to the listener, routed to
-- their handlers. Forms and paths are parsed by net/http and echo; a request has what they found.
use natsie.Base.{
  String, not, List, Option, none, some, ◌==◌, contains, Eq, string_eq, if◌then◌else◌,
}
use natsie.Go.Strings.{fields, trim_space}
use natsie.Go.Time.{Time}
use natsie.Cleanup.Nats.{Server}
use natsie.Approve.{
  Listener, World, Response, Route, get_healthz, get_manifest_id, get_metrics, post_slash,
  get_approve, post_approve, routes, get_manifest, preview_approval, do_approval,
}
use natsie.Chat.Api
use natsie.Chat.Api.{Deps, Clock}
use natsie.Chat.{dispatch}

pub Route-discrete : Discrete Route
Route-discrete = hlevel

instance unfoldable pub route_eq : Eq Route
unfolding Route-discrete
route_eq = record { dec = Route-discrete }

-- The values of the form of a slash command.
pub record Form : Type 0 where
  pub token : String
  pub text : String

-- An approval request has its id, its token and the address that it comes from; the form of a slash
-- command may not parse.
pub data Request : Type 0 where
  healthz metrics : Request
  manifest : String → Request
  slash : Option Form → Request
  preview apply : String → String → String → Request

pub data Reply : Type 0 where
  no_route healthy metrics_page bad_form invalid_token : Reply
  ephemeral : String → Reply
  answer : Response → Reply

abbrev pub slash_trigger : String
slash_trigger = "/natsie"

unfoldable pub route_of : Request → Route
route_of healthz = get_healthz
route_of metrics = get_metrics
route_of (manifest _) = get_manifest_id
route_of (slash _) = post_slash
route_of (preview _ _ _) = get_approve
route_of (apply _ _ _) = post_approve

-- The dependencies of a slash command: the listener's store and key, and what else it was made with.
abbrev pub deps_of : Deps → Listener → Deps
deps_of d s = record d { store = s.store; signing_key = s.signing_key }

module _ (S : Server) (d : Deps) (clock : Clock) (s : Listener) where
  -- `handleSlash`
  unfoldable pub handle_slash : Option Form → World S → Reply × World S
  handle_slash none w = (bad_form, w)
  handle_slash (some form) w =
      let before : natsie.Chat.Api.World = record { fs = w.fs; audit = w.audit } in
      let (text, after) =
        dispatch (deps_of d s) clock slash_trigger (fields (trim_space form.text)) before in
      if not (form.token == s.signing_key)
      then (invalid_token, w)
      else (ephemeral text, record w { fs = after.fs; audit = after.audit })

  -- The handlers behind the routes. `order` and `now` are those of `doApproval`.
  unfoldable pub handle : List String → Time → Request → World S → Reply × World S
  unfolding handle_slash
  handle order now healthz w = (healthy, w)
  handle order now metrics w = (metrics_page, w)
  handle order now (manifest id) w = (answer (get_manifest S d.yaml d.mac s id w), w)
  handle order now (slash form) w = handle_slash form w
  handle order now (preview id token source) w =
      let (r, w') = preview_approval S d.yaml d.mac s source id token w in (answer r, w')
  handle order now (apply id token source) w =
      let (r, w') = do_approval S d.yaml d.mac s order now source id token w in (answer r, w')

  -- A request to the listener: a handler runs only if its route was registered.
  unfoldable pub serve : List String → Time → Request → World S → Reply × World S
  unfolding handle route_of
  serve order now r w =
      if contains (routes s) (route_of r) then handle order now r w else (no_route, w)
