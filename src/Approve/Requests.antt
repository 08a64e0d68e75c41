-- ===== src/Approve/Requests.antt =====
-- What a request to the listener can change.
use natsie.Base.{
  String, true, false, List, [], Option, none, some, ◌!=◌, ◌≡◌, ◌≢◌, ◌⊎◌, inl, inr, refl, arith,
  contains, Bool-cases, string_eq, eq→==, ne→==,
}
use natsie.Go.Strings.{fields, trim_space}
use natsie.Go.Time.{Time}
use natsie.Manifest.{Manifest}
use natsie.Cleanup.Nats.{Server}
use natsie.Cleanup.Guarded.{IsGuarded}
use natsie.Approve.{Listener, World, post_slash, post_approve, routes, preview_approval}
use natsie.Approve.Gate.{IsAuthorized, do_approval-IsGuarded}
use natsie.Approve.Router.{
  Form, Request, healthz, metrics, manifest, slash, preview, apply, route_eq, deps_of, handle_slash,
  handle, serve, slash_trigger, route_of,
}
use natsie.Chat.Api
use natsie.Chat.Api.{Deps, Clock}
use natsie.Chat.{dispatch}
use natsie.Chat.Confined.{IsProposal, dispatch-IsProposal}

module _ (s : Listener) where
  -- Without a signing key the routes of the commands and of the approvals are not there.
  not_routed :
      (s.signing_key != "") ≡ false
      → (contains (routes s) post_slash ≡ false) × (contains (routes s) post_approve ≡ false)
  unfolding routes contains route_eq
  not_routed k = elim (Bool-cases s.has_metrics) [
    | inl m ↦ (rw (k, m, routes) refl, rw (k, m, routes) refl)
    | inr m ↦ (rw (k, m, routes) refl, rw (k, m, routes) refl)
  ]

  not_routed_without_connector : s.can_connect ≡ false → contains (routes s) post_approve ≡ false
  unfolding routes contains route_eq
  not_routed_without_connector c = elim (Bool-cases (s.signing_key != "")) [
    | inr k ↦ (not_routed k).1
    | inl k ↦ elim (Bool-cases s.has_metrics) [
      | inl m ↦ rw (k, c, m, routes) refl
      | inr m ↦ rw (k, c, m, routes) refl
    ]
  ]

  slash_routed : contains (routes s) post_slash ≡ true → s.signing_key ≢ ""
  slash_routed h e =
      let k : (s.signing_key != "") ≡ false = ground (arith, e) in cc (h, (not_routed k).0)

  approve_routed :
      contains (routes s) post_approve ≡ true → (s.signing_key ≢ "") × (s.can_connect ≡ true)
  approve_routed h = (
    λ e. let k : (s.signing_key != "") ≡ false = ground (arith, e) in cc (h, (not_routed k).1),
    elim (Bool-cases s.can_connect) [
      | inl c ↦ c
      | inr c ↦ absurd (cc (h, not_routed_without_connector c))
    ],
  )

abbrev pub chat_world : {S : Server} → World S → natsie.Chat.Api.World
chat_world w = record { fs = w.fs; audit = w.audit }

module _ (S : Server) (d : Deps) (clock : Clock) (s : Listener) where
  -- A command of the chat with the signing key for its token, and what such a command changes.
  abbrev pub IsCommand : Request → World S → World S → Type 0
  IsCommand r w w' =
      (form : Form) × (r ≡ slash (some form))
      × (form.token ≡ s.signing_key)
      × (s.signing_key ≢ "")
      × IsProposal (deps_of d s) clock (chat_world w) (fields (trim_space form.text))
          (chat_world w')

  -- An approval of a stored manifest with the MAC of its id for its token, and what it deletes.
  abbrev pub IsApproval : Request → World S → World S → Type 0
  IsApproval r w w' =
      (id : String) × (token : String) × (source : String) × (m : Manifest) × (r
        ≡ apply id token source)
      × (s.signing_key ≢ "")
      × (s.can_connect ≡ true)
      × IsAuthorized d.yaml d.mac s id token w m
      × IsGuarded (record { dry_run = false; protect = s.protect }) m w'.session.log

  abbrev IsConfined : Request → World S → World S → Type 0
  IsConfined r w w' =
      ((w'.fs ≡ w.fs) ⊎ IsCommand r w w') × ((w'.session ≡ w.session) ⊎ IsApproval r w w')

  handle_slash-IsConfined :
      (f : Option Form) (w : World S)
      → s.signing_key ≢ ""
      → IsConfined (slash f) w (handle_slash S d clock s f w).1
  unfolding handle_slash
  handle_slash-IsConfined none w key = (inl refl, inl refl)
  handle_slash-IsConfined (some form) w key = elim (string_eq.dec form.token s.signing_key) [
    | no differ ↦ rw (ne→== form.token s.signing_key differ, handle_slash) (inl refl, inl refl)
    | yes same ↦
        rw (eq→== form.token s.signing_key same, handle_slash)
          (
            inr (
              form,
              refl,
              same,
              key,
              dispatch-IsProposal (deps_of d s) clock slash_trigger (fields (trim_space form.text))
                  (chat_world w),
            ),
            inl refl,
          )
  ]

  preview_keeps :
      (id token source : String) (w : World S)
      → let w' = (preview_approval S d.yaml d.mac s source id token w).1 in
        (w'.fs ≡ w.fs) × (w'.session ≡ w.session)
  unfolding preview_approval
  preview_keeps id token source w = ground arith

  module _ (order : List String) (now : Time) where
    handle-IsConfined :
        (r : Request) (w : World S)
        → contains (routes s) (route_of r) ≡ true
        → w.session.log ≡ []
        → IsConfined r w (handle S d clock s order now r w).1
    unfolding handle route_of
    handle-IsConfined healthz w h fresh = (inl refl, inl refl)
    handle-IsConfined metrics w h fresh = (inl refl, inl refl)
    handle-IsConfined (manifest id) w h fresh = (inl refl, inl refl)
    handle-IsConfined (slash f) w h fresh = handle_slash-IsConfined f w (slash_routed s h)
    handle-IsConfined (preview id token source) w h fresh =
        let (files, session) = preview_keeps id token source w in (inl files, inl session)
    handle-IsConfined (apply id token source) w h fresh =
        let (files, guarded) =
          do_approval-IsGuarded S d.yaml d.mac s order now source id token w fresh in
        let (key, connects) = approve_routed s h in
        (
          inl files,
          elim guarded [
            | inl same ↦ inl same
            | inr (m, good, safe) ↦ inr (id, token, source, m, refl, key, connects, good, safe)
          ],
        )

-- A request to the listener changes no file, unless it is a command of the chat that shows the signing
-- key, which is not empty, and then at most stores the manifest of a scan. It does nothing on the
-- clusters, unless it shows the MAC of the id of a stored manifest under the signing key, which is not
-- empty, to a listener that can connect; then, if no request had gone out before, every deletion is
-- guarded as those of `Apply` are, with the listener's protector.
pub serve-IsConfined :
    (S : Server) (d : Deps) (clock : Clock) (s : Listener) (order : List String) (now : Time)
    (r : Request) (w : World S)
    → w.session.log ≡ []
    → let w' = (serve S d clock s order now r w).1 in
      ((w'.fs ≡ w.fs) ⊎ IsCommand S d clock s r w w')
      × ((w'.session ≡ w.session) ⊎ IsApproval S d clock s r w w')
unfolding serve
serve-IsConfined S d clock s order now r w fresh =
    elim (Bool-cases (contains (routes s) (route_of r))) [
      | inl there ↦ rw (there, serve) (handle-IsConfined S d clock s order now r w there fresh)
      | inr absent ↦ rw (absent, serve) (inl refl, inl refl)
    ]
