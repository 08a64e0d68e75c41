-- ===== src/Chat.antt =====
-- internal/chatops/commands.go: the commands of the chat. The other files of the package are the
-- modules below: Chat/Render is render.go, Chat/Contexts clusters.go, Chat/Streams streams.go,
-- Chat/Usage usage.go, Chat/Details consumers.go and cluster.go, Chat/StreamDetail stream.go,
-- Chat/LastMessage stream_last.go, and Chat/Scan scan.go.
pub mod Render
pub mod Api
pub mod Contexts
pub mod Streams
pub mod Usage
pub mod Details
pub mod StreamDetail
pub mod LastMessage
pub mod Scan
pub mod Bars
pub mod Table
pub mod Confined
pub mod Proposal
use natsie.Base.{ℕ, String, ◌<>◌, Bool, List, [], ◌∷◌, ◌==◌, string_eq, length, if◌then◌else◌}
use natsie.Base.Result.{Result, ok, err}
use natsie.Go.Duration.{duration_string}
use natsie.Go.Os.{Fs}
use natsie.Go.Strings.{itoa, itoa_int}
use natsie.Go.Time.{format_rfc3339}
use natsie.Manifest.{Manifest, Entry}
use natsie.Store
use Api.{Deps, Clock, World, store_text}
use Contexts.{clusters}
use Streams.{streams}
use Usage.{usage}
use Details.{consumers_detail, cluster_detail}
use StreamDetail.{stream_detail}
use LastMessage.{stream_last}
use Scan
use Scan.{show_limit, more_entries, entry_headers}
use Render.{md_table, quoted, rows_upto, and_more}

abbrev command : String → String → String → String
command trigger args what = "- `" <> (trigger <> (" " <> (args <> ("` — " <> (what <> "\n")))))

unfoldable pub help_text : String → String
help_text t =
    "natsie commands:\n"
    <> (command t "list" "list stored manifest IDs"
        <> (command t "show <id>" "preview a manifest"
            <> (command t "clusters" "list NATS contexts this bot can dial"
                <> (command t "streams [ctx]" "list streams (one ctx or all)"
                    <> (command t "stream <ctx> <name>" "single-stream detail"
                        <> (command t "last <ctx> <stream> [<subject>]"
                              "metadata for the last message"
                            <> (command t "consumers <ctx> <stream>" "all consumers, unfiltered"
                                <> (command t "usage [ctx]"
                                      "aggregate footprint + top streams by bytes"
                                    <> (command t "cluster <ctx>" "connected server, peers, account"
                                        <> (command t "scan <ctx> [<stream>]"
                                              "on-demand scan, replies with approve URL"
                                            <> ("- `" <> (t <> " help` — this message"))))))))))))

-- `Help`
unfoldable pub help : String → String
unfolding help_text
help trigger = if trigger == "" then help_text "/natsie" else help_text trigger

-- `listLimit`
abbrev pub list_limit : ℕ
list_limit = 20

abbrev pub id_row : String → List String
id_row id = quoted id ∷ []

abbrev pub more_ids : ℕ → List String
more_ids n = and_more n ∷ []

-- `list`
unfoldable pub list : Deps → Fs → String
list d fs = elim (natsie.Store.list d.store fs) [
  | err e ↦ "list failed: " <> store_text d "" e
  | ok [] ↦ "no manifests in store"
  | ok (i ∷ ids) ↦
      "**Manifests in store** ("
      <> (itoa (length (i ∷ ids))
          <> (")\n\n" <> md_table ("ID" ∷ []) (rows_upto list_limit more_ids id_row (i ∷ ids))))
]

unfoldable pub show_row : Entry → List String
show_row e =
    quoted e.stream ∷ quoted e.consumer ∷ itoa_int e.num_pending ∷ duration_string e.idle ∷ []

-- `show`; the time of a manifest is in UTC, as its writers leave it.
unfoldable pub show : Deps → Fs → String → String
unfolding show_row
show d fs id = elim (natsie.Store.get d.yaml d.store fs id) [
  | err e ↦ "manifest `" <> (id <> ("` not found: " <> store_text d id e))
  | ok m ↦
      "**Manifest `"
      <> (id
          <> ("`** — "
              <> (itoa (length m.entries)
                  <> (" entries, generated "
                      <> (format_rfc3339 m.generated_at
                          <> ("\n\n"
                              <> md_table entry_headers
                                  (rows_upto show_limit more_entries show_row m.entries)))))))
]

abbrev usage_of : String → String → String
usage_of trigger args = "usage: `" <> (trigger <> (" " <> (args <> "`")))

abbrev first_or : String → List String → String
first_or default [] = default
first_or default (a ∷ rest) = a

-- The cases of `Dispatch` that only read; `argv` is what follows the command.
unfoldable pub dispatch_read : Deps → Clock → Fs → String → String → List String → String
unfolding list show help
dispatch_read d clock fs trigger cmd argv =
    if cmd == "list"
    then list d fs
    else if cmd == "show"
    then (elim argv [ [] ↦ usage_of trigger "show <manifest-id>" | id ∷ _ ↦ show d fs id ])
    else if cmd == "clusters"
    then clusters d.host fs
    else if cmd == "streams"
    then streams d.host fs (first_or "" argv)
    else if cmd == "stream"
    then (elim argv [
      | [] ↦ usage_of trigger "stream <ctx> <name>"
      | _ ∷ [] ↦ usage_of trigger "stream <ctx> <name>"
      | ctx ∷ name ∷ _ ↦ stream_detail d.host fs ctx name
    ])
    else if cmd == "last"
    then (elim argv [
      | [] ↦ usage_of trigger "last <ctx> <stream> [<subject>]"
      | _ ∷ [] ↦ usage_of trigger "last <ctx> <stream> [<subject>]"
      | ctx ∷ name ∷ rest ↦ stream_last d.host fs clock.now ctx name (first_or "" rest)
    ])
    else if cmd == "consumers"
    then (elim argv [
      | [] ↦ usage_of trigger "consumers <ctx> <stream>"
      | _ ∷ [] ↦ usage_of trigger "consumers <ctx> <stream>"
      | ctx ∷ name ∷ _ ↦ consumers_detail d.host fs clock.now ctx name
    ])
    else if cmd == "usage"
    then usage d.host fs (first_or "" argv)
    else if cmd == "cluster"
    then (elim argv [
      | [] ↦ usage_of trigger "cluster <ctx>"
      | ctx ∷ _ ↦ cluster_detail d.host fs ctx
    ])
    else if cmd == "help"
    then help trigger
    else "unknown subcommand `" <> (cmd <> ("`\n\n" <> help trigger))

-- `Dispatch`; the case of the scan, which changes the world, is taken out first.
unfoldable pub dispatch : Deps → Clock → String → List String → World → String × World
unfolding dispatch_read help
dispatch d clock trigger [] w = (help trigger, w)
dispatch d clock trigger (cmd ∷ argv) w =
    if cmd == "scan"
    then (elim argv [
      | [] ↦ (usage_of trigger "scan <ctx> [<stream>]", w)
      | ctx ∷ rest ↦ natsie.Chat.Scan.scan d clock ctx (first_or "" rest) w
    ])
    else (dispatch_read d clock w.fs trigger cmd argv, w)
