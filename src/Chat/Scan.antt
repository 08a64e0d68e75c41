-- ===== src/Chat/Scan.antt =====
-- internal/chatops/scan.go
use natsie.Base.{
  ℕ, String, ◌<>◌, Bool, ◌&&◌, List, [], ◌∷◌, none, ◌==◌, ◌!=◌, string_eq, ℕ_eq, count_if, length,
  if◌then◌else◌, ◌*◌,
}
use natsie.Base.Int.{pos}
use natsie.Base.Result.{ok, err}
use natsie.Audit.{of_kind}
use natsie.Bot.{build_scan_manifest}
use natsie.Go.Duration.{duration_string}
use natsie.Go.Strings.{itoa, trim_suffix}
use natsie.Go.Time.{Time, format_stamp, hour}
use natsie.Manifest.{Manifest, Entry}
use natsie.Natsctx.{connect, error_text}
use natsie.Scanner.Classify.{Row, Options, stale, status_eq}
use natsie.Scanner.Scan
use natsie.Store.{put}
use natsie.Chat.Api.{Deps, Clock, World, log_event, store_text, scan_text}
use natsie.Chat.Render.{md_table, human_int, to_uint64, quoted, rows_upto, and_more}

-- `scanDefaultMinPending` and `scanDefaultMinIdle`; the chat's scan has no protector.
abbrev pub scan_options : String → Options
scan_options stream = record {
  stream = stream;
  min_pending = pos 10000;
  min_idle = pos (24 * hour);
  protect = none;
}

abbrev pub is_stale : Row → Bool
is_stale r = r.status == stale

-- `showLimit`
abbrev pub show_limit : ℕ
show_limit = 10

abbrev pub more_entries : ℕ → List String
more_entries n = and_more n ∷ "" ∷ "" ∷ "" ∷ []

unfoldable pub reply_row : Entry → List String
reply_row e =
    quoted e.stream
    ∷ quoted e.consumer
    ∷ human_int (to_uint64 e.num_pending)
    ∷ duration_string e.idle
    ∷ []

abbrev pub entry_headers : List String
entry_headers = "Stream" ∷ "Consumer" ∷ "Pending" ∷ "Idle" ∷ []

unfoldable pub approve_text : Deps → String → String
approve_text d id =
    let base = trim_suffix d.base_url "/" in
    if base != "" && d.signing_key != ""
    then "\n**Approve**: "
      <> (base <> ("/approve/" <> (id <> ("?token=" <> (d.mac d.signing_key id <> "\n")))))
    else "\n_(approve URL not generated — bot has no base_url / signing_key configured)_\n"

-- `formatScanReply`
unfoldable pub format_scan_reply : Deps → String → String → Manifest → ℕ → String
unfolding reply_row approve_text
format_scan_reply d ctx id m count =
    "**`"
    <> (ctx
        <> ("`** scan: **"
            <> (itoa count
                <> (" stale consumers** found (manifest `"
                    <> (id
                        <> ("`)\n\n"
                            <> (md_table entry_headers
                                  (rows_upto show_limit more_entries reply_row m.entries)
                                <> approve_text d id)))))))

unfoldable pub clean_reply : String → List Row → String
clean_reply ctx rows =
    "**`"
    <> (ctx
        <> ("`** scan: "
            <> (itoa (length rows)
                <> " total consumers checked, **0 stale** — nothing to clean up.")))

abbrev pub chat_id : Time → String → String
chat_id stamped ctx = "chat-" <> (ctx <> ("-" <> format_stamp stamped))

module _ (d : Deps) (clock : Clock) where
  -- `scan` from its rows on.
  unfoldable pub propose : String → String → List Row → World → String × World
  unfolding format_scan_reply clean_reply
  propose ctx stream rows w =
      let count = count_if is_stale rows in
      let m = build_scan_manifest d.short clock.generated ctx (scan_options stream) rows in
      let id = chat_id clock.stamped ctx in
      let (r, fs) = put d.yaml d.store w.fs id m in
      let w' : World = record w { fs = fs } in
      let stored : String × World = elim r [
        | err e ↦ (
          "scan found "
              <> (itoa count
                  <> (" stale but **storing the manifest failed**: " <> store_text d id e)),
          w',
        )
        | ok _ ↦ (
          format_scan_reply d ctx id m count,
          log_event
              (record (of_kind "scan.adhoc") {
                schedule = "chat:" <> ctx;
                manifest = id;
                entries = count;
              })
              w',
        )
      ] in
      if count == 0
      then (
        clean_reply ctx rows,
        log_event (record (of_kind "scan.adhoc") { schedule = "chat:" <> ctx }) w,
      )
      else stored

  -- `scan`
  unfoldable pub scan : String → String → World → String × World
  unfolding propose
  scan ctx stream w = elim (connect d.host w.fs ctx) [
    | err e ↦ ("connect `" <> (ctx <> ("`: " <> error_text d.host e)), w)
    | ok nc ↦ elim nc.conn.manager [
      | err e ↦ ("scan failed: jsm.New: " <> e, w)
      | ok mgr ↦
          elim (natsie.Scanner.Scan.scan (record mgr.scanned { name = ctx }) none clock.now
            (scan_options stream) d.ctx) [
              | err e ↦ ("scan failed: " <> scan_text e, w)
              | ok rows ↦ propose ctx stream rows w
            ]
    ]
  ]
