-- ===== src/Approve.antt =====
-- internal/infra/httpsrv: the routes and handlers of the listener. The MAC (HMAC-SHA256 in URL-safe
-- base64) is a parameter, a function of the key and the text.
pub mod Gate
pub mod Router
pub mod Requests
use Prim.Native.Char.{code}
use Prim.Native.String.{[], ◌∷◌}
use natsie.Base.{
  suc, ◌-◌, ℕ_eq, ℕ, String, ◌<>◌, Bool, true, false, not, ◌&&◌, List, ◌++◌, Option, none, some,
  ◌==◌, ◌!=◌, Eq, string_eq, if◌then◌else◌, length,
}
use natsie.Base.Result.{Result, ok, err}
use natsie.Go.Strings.{itoa, itoa_int}
use natsie.Go.Os.{Fs}
use natsie.Go.Time.{Time, Duration, sub}
use natsie.Manifest.{Manifest, Entry, Yaml}
use natsie.Protect.{Protector}
use natsie.Audit.{AuditEvent, Trail, of_kind, log}
use natsie.Store.{File, valid_id, get}
use natsie.Cleanup.{Outcome, Event, apply, summary}
use natsie.Cleanup.Nats.{Server, Session}

-- `SignApprovalToken`, with the MAC as a parameter.
abbrev pub Mac : Type 0
Mac = String → String → String

-- What `ObserveApply` is called with; the protected consumers are not among it.
pub record Observation : Type 0 where
  pub deleted : ℕ
  pub preserved : ℕ
  pub gone : ℕ
  pub skipped : ℕ
  pub failed : ℕ
  pub age : Duration

-- The dependencies of the listener. `can_connect` says whether a connector was given.
pub record Listener : Type 0 where
  pub store : File
  pub signing_key : String
  pub can_connect : Bool
  pub has_metrics : Bool
  pub protect : Option Protector

-- What a handler reads and changes: the files, the clusters, the audit log and the metrics.
pub record World (S : Server) : Type 0 where
  pub fs : Fs
  pub session : Session S
  pub audit : Trail
  pub observed : List Observation

-- The answers; the bodies of the errors are their texts.
pub data Response : Type 0 where
  bad_request : Response
  unauthorized : Response
  not_found : String → Response
  preview : String → Response
  applied : String → List Event → Response
  apply_failed : String → String → Response
  document : String → Response
  marshal_failed : String → Response

pub data Route : Type 0 where
  get_healthz get_manifest_id get_metrics post_slash get_approve post_approve : Route

abbrev when : Bool → List Route → List Route
when b rs = if b then rs else List.[]

-- `routes`
unfoldable pub routes : Listener → List Route
routes s =
    (List.◌∷◌ get_healthz (List.◌∷◌ get_manifest_id List.[]))
    ++ when s.has_metrics (List.◌∷◌ get_metrics List.[])
    ++ when (s.signing_key != "") (List.◌∷◌ post_slash List.[])
    ++ when (s.signing_key != "" && s.can_connect)
        (List.◌∷◌ get_approve (List.◌∷◌ post_approve List.[]))

-- `checkApprovalToken`
unfoldable pub check_approval_token : Mac → Listener → String → String → Bool
check_approval_token mac s id presented = presented == mac s.signing_key id

abbrev pub log_event : {S : Server} → AuditEvent → World S → World S
log_event ev w = record w { audit = log ev w.audit }

-- An event of a request: its kind, the manifest, and `RealIP`.
abbrev pub of_request : String → String → String → AuditEvent
of_request kind id source = record (of_kind kind) { manifest = id; source = source }

-- `html.EscapeString`
unfoldable pub escape : String → String
escape [] = ""
escape (c ∷ s) =
    let rest = escape s in
    if code c == 38
    then "&amp;" <> rest
    else if code c == 39
    then "&#39;" <> rest
    else if code c == 60
    then "&lt;" <> rest
    else if code c == 62
    then "&gt;" <> rest
    else if code c == 34
    then "&#34;" <> rest
    else c ∷ rest

abbrev preview_line : Entry → String
preview_line e =
    "  "
    <> (e.stream <> ("/" <> (e.consumer <> (" (pending=" <> (itoa_int e.num_pending <> ")\n")))))

-- The loop of `previewApproval`, with the lines that are left counted down from 20.
unfoldable pub preview_lines : ℕ → List Entry → String
preview_lines n List.[] = ""
preview_lines n (List.◌∷◌ e es) =
    let rest = preview_lines (n - 1) es in
    if n == 0 then "...and " <> (itoa (suc (length es)) <> " more\n") else preview_line e <> rest

-- The body of a preview.
unfoldable pub preview_text : String → Manifest → String
unfolding escape preview_lines
preview_text id m =
    "Confirm cleanup for manifest "
    <> (escape id
        <> (" ("
            <> (itoa (length m.entries)
                <> (" entries):\n\n"
                    <> (preview_lines 20 m.entries
                        <> ("\nPOST the same URL to confirm. Re-verification runs at apply time;\n"
                            <> ("any consumer that's become active since the manifest was generated\n"
                                <> "will be preserved automatically.\n")))))))

-- `ObserveApply` of an outcome.
abbrev pub observation : Outcome → Duration → Observation
observation r age = record {
  deleted = r.deleted;
  preserved = r.preserved;
  gone = r.gone;
  skipped = r.skipped;
  failed = r.failed;
  age = age;
}

module _ (S : Server) (yaml : Yaml) (mac : Mac) where
  -- `getManifest`
  unfoldable pub get_manifest : Listener → String → World S → Response
  get_manifest s id w = if not (valid_id id) then bad_request else elim (get yaml s.store w.fs id) [
    | err _ ↦ not_found id
    | ok m ↦ elim (yaml.marshal m) [ err e ↦ marshal_failed e | ok text ↦ document text ]
  ]

  -- `previewApproval`
  unfoldable pub preview_approval :
      Listener → String → String → String → World S → Response × World S
  unfolding check_approval_token
  preview_approval s source id token w =
      if not (valid_id id)
      then (bad_request, w)
      else if not (check_approval_token mac s id token)
      then (
        unauthorized,
        log_event (record (of_request "approve.preview" id source) { error = "invalid token" }) w,
      )
      else elim (get yaml s.store w.fs id) [
        | err _ ↦ (not_found id, w)
        | ok m ↦ (
          preview (preview_text id m),
          log_event (record (of_request "approve.preview" id source) { entries = length m.entries })
              w,
        )
      ]

  -- `doApproval`, from the stored manifest on. `order` is the order of the clusters in `Apply`, and
  -- `now` is the time when it has returned.
  unfoldable pub approve :
      Listener → List String → Time → String → String → Manifest → World S → Response × World S
  approve s order now source id m w =
      let (session, r, e) =
        apply S order m (record { dry_run = false; protect = s.protect }) w.session in
      let w' : World S = record w {
        session = session;
        observed =
            if s.has_metrics
            then w.observed ++ List.◌∷◌ (observation r (sub now m.generated_at)) List.[]
            else w.observed;
      } in
      elim e [
        | some text ↦ (
          apply_failed text (summary r),
          log_event
              (record (of_request "approve.apply" id source) {
                entries = length m.entries;
                result = summary r;
                error = text;
              })
              w',
        )
        | none ↦ (
          applied (summary r) r.events,
          log_event
              (record (of_request "approve.apply" id source) {
                entries = length m.entries;
                result = summary r;
              })
              w',
        )
      ]

  -- `doApproval`
  unfoldable pub do_approval :
      Listener → List String → Time → String → String → String → World S → Response × World S
  unfolding check_approval_token
  do_approval s order now source id token w =
      if not (valid_id id)
      then (bad_request, w)
      else if not (check_approval_token mac s id token)
      then (
        unauthorized,
        log_event (record (of_request "approve.apply" id source) { error = "invalid token" }) w,
      )
      else elim (get yaml s.store w.fs id) [
        | err _ ↦ (not_found id, w)
        | ok m ↦ approve s order now source id m w
      ]
