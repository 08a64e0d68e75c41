-- ===== src/Chat/Streams.antt =====
-- internal/chatops/streams.go.
use natsie.Base.{String, ◌<>◌, List, [], ◌∷◌, map, length}
use natsie.Base.Int.{pos}
use natsie.Base.Result.{ok, err}
use natsie.Go.Os.{Fs}
use natsie.Go.Sort.{sort_slice}
use natsie.Go.Strings.{less, itoa, itoa_int}
use natsie.Natsctx.{Host, connect, error_text}
use natsie.Chat.Api.{Nats, Manager}
use natsie.Chat.Contexts.{truncate, for_contexts}
use natsie.Chat.Render.{md_table, human_int, human_bytes, int_str, quoted}

abbrev pub headed : String → String → String
headed name text = "**`" <> (name <> ("`** — " <> text))

abbrev err_row : String → String → List String
err_row name e = quoted name ∷ "—" ∷ "—" ∷ "—" ∷ ("ERR: " <> truncate e 30) ∷ []

-- One round of the loop over the streams.
unfoldable pub stream_row : Manager → String → List String
stream_row mgr name = elim (mgr.load_stream name) [
  | err e ↦ err_row name e
  | ok s ↦ elim s.state [
    | err e ↦ err_row name e
    | ok state ↦
        quoted name
        ∷ human_int state.msgs
        ∷ human_bytes state.bytes
        ∷ int_str (pos state.consumers)
        ∷ ("R=" <> (itoa_int s.config.replicas <> (" " <> s.config.retention)))
        ∷ []
  ]
]

-- The manager of a context, or the text of the failure on the way to it.
unfoldable pub with_manager : Host Nats → Fs → String → (Manager → String) → String
with_manager h fs name text = elim (connect h fs name) [
  | err e ↦ headed name ("connect failed: " <> (error_text h e <> "\n"))
  | ok nc ↦ elim nc.conn.manager [
    | err e ↦ headed name ("jsm: " <> (e <> "\n"))
    | ok mgr ↦ text mgr
  ]
]

-- `renderStreamsFor`
unfoldable pub render_streams_for : Host Nats → Fs → String → String
unfolding stream_row with_manager
render_streams_for h fs name = with_manager h fs name λ mgr. elim mgr.stream_names [
  | err e ↦ headed name ("list streams: " <> (e <> "\n"))
  | ok [] ↦ headed name "no streams\n"
  | ok (s ∷ ss) ↦
      let names = sort_slice less (s ∷ ss) in
      headed name (itoa (length names) <> " streams\n\n")
      <> md_table ("Stream" ∷ "Msgs" ∷ "Bytes" ∷ "Consumers" ∷ "Config" ∷ [])
          (map (stream_row mgr) names)
]

-- `streams`
unfoldable pub streams : Host Nats → Fs → String → String
unfolding render_streams_for
streams h fs target =
    for_contexts h fs target "Try `streams` with no argument to list all."
      "no NATS contexts configured for this natsie instance" (render_streams_for h fs)
