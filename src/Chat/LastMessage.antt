-- ===== src/Chat/LastMessage.antt =====
-- internal/chatops/stream_last.go
use Prim.Native.Char.{code}
use Prim.Native.String.{[], ◌∷◌}
use natsie.Base.{
  ◌≡◌, refl, String, ◌<>◌, ◌&&◌, ◌||◌, List, Option, none, some, ◌==◌, ◌!=◌, string_eq, ℕ_eq, map,
  length, if◌then◌else◌,
}
use natsie.Base.Result.{Result, ok, err}
use natsie.Go.Os.{Fs}
use natsie.Go.Duration.{duration_string}
use natsie.Go.Strings.{itoa, has_prefix, trim_space}
use natsie.Go.Time.{Time, sub, truncate_second, format_rfc3339}
use natsie.Natsctx.{Host}
use natsie.Chat.Api.{Nats, Stream, Message}
use natsie.Chat.Details.{with_stream, place}
use natsie.Chat.Render.{md_table, human_int, human_bytes, quoted}

-- `natsHeader`
pub record NatsHeader : Type 0 where
  pub key : String
  pub value : String

-- `bytes.SplitSeq(raw, "\n")`; `line` is what has been read of the next one.
unfoldable pub lines_from : String → String → List String
unfolding ℕ_eq
lines_from line [] = List.◌∷◌ line List.[]
lines_from line (c ∷ s) =
    let cut = List.◌∷◌ line (lines_from "" s) in
    let longer = lines_from (line <> (c ∷ "")) s in if code c == b'\n' then cut else longer

-- `bytes.TrimRight(line, "\r")`
unfoldable pub trim_cr : String → String
unfolding ℕ_eq
trim_cr [] = ""
trim_cr (c ∷ s) = let rest = trim_cr s in if rest == "" && code c == b'\r' then "" else c ∷ rest

-- The parts before and behind the first colon.
unfoldable pub cut_colon : String → Option (String × String)
unfolding ℕ_eq
cut_colon [] = none
cut_colon (c ∷ s) =
    let later : Option (String × String) = elim (cut_colon s) [
      | none ↦ none
      | some (before, behind) ↦ some (c ∷ before, behind)
    ] in
    if code c == b':' then some ("", s) else later

-- A line of the loop of `parseNATSHeaders`, if it is a header.
unfoldable pub parse_line : String → Option NatsHeader
unfolding trim_cr cut_colon
parse_line raw =
    let line = trim_cr raw in
    if line == "" || has_prefix line "NATS/" then none else elim (cut_colon line) [
      | none ↦ none
      | some (before, behind) ↦
          if before == ""
          then none
          else some (record { key = trim_space before; value = trim_space behind })
    ]

unfoldable pub parse_lines : List String → List NatsHeader
unfolding parse_line
parse_lines List.[] = List.[]
parse_lines (List.◌∷◌ line rest) =
    let headers = parse_lines rest in
    elim (parse_line line) [ none ↦ headers | some h ↦ List.◌∷◌ h headers ]

-- `parseNATSHeaders`
unfoldable pub parse_nats_headers : String → List NatsHeader
unfolding lines_from parse_lines
parse_nats_headers raw = if raw == "" then List.[] else parse_lines (lines_from "" raw)

two_headers :
    parse_nats_headers "NATS/1.0\r\nNats-Msg-Id: a:b \r\n:none\r\nplain\r\n\r\n"
    ≡ List.◌∷◌ (record { key = "Nats-Msg-Id"; value = "a:b" }) List.[]
unfolding parse_nats_headers string_eq ℕ_eq trim_space has_prefix
two_headers = refl

-- `loadLastMessage`, with the texts of its errors; `quote` is `strconv.Quote`.
unfoldable pub load_last_message : (String → String) → Stream → String → Result String Message
load_last_message quote s subject =
    if subject != ""
    then (elim (s.last_for_subject subject) [
      | err e ↦ err ("read last for subject " <> (quote subject <> (": " <> e)))
      | ok m ↦ ok m
    ])
    else elim s.information [
      | err e ↦ err ("info: " <> e)
      | ok info ↦
          if info.state.msgs == 0
          then err "stream is empty"
          else elim (s.read_message info.state.last_seq) [
            | err e ↦ err ("read seq " <> (itoa info.state.last_seq <> (": " <> e)))
            | ok m ↦ ok m
          ]
    ]

abbrev header_row : NatsHeader → List String
header_row h = List.◌∷◌ (quoted h.key) (List.◌∷◌ h.value List.[])

abbrev headers_text : List NatsHeader → String
headers_text List.[] = ""
headers_text (List.◌∷◌ h hs) =
    "\n**Headers** ("
    <> (itoa (length (List.◌∷◌ h hs))
        <> (")\n\n"
            <> md_table (List.◌∷◌ "Key" (List.◌∷◌ "Value" List.[]))
                (map header_row (List.◌∷◌ h hs))))

abbrev message_headers : List String
message_headers =
    List.◌∷◌ "Subject"
      (List.◌∷◌ "Seq" (List.◌∷◌ "Time" (List.◌∷◌ "Age" (List.◌∷◌ "Payload" List.[]))))

unfoldable pub message_row : Time → Message → List String
message_row now m = List.◌∷◌ (quoted m.subject) (
    List.◌∷◌ (human_int m.sequence) (
      List.◌∷◌ (format_rfc3339 m.time) (
        List.◌∷◌ (duration_string (truncate_second (sub now m.time)))
          (List.◌∷◌ (human_bytes m.size) List.[]))))

unfoldable pub message_text : Time → String → String → String → Message → String
unfolding parse_nats_headers message_row
message_text now ctx name subject m =
    let on = if subject != "" then " on " <> quoted subject else "" in
    place ctx name
    <> (" — last message"
        <> (on
            <> ("\n\n"
                <> (md_table message_headers (List.◌∷◌ (message_row now m) List.[])
                    <> headers_text (parse_nats_headers m.header)))))

-- `streamLast`
unfoldable pub stream_last : Host Nats → Fs → Time → String → String → String → String
unfolding load_last_message message_text
stream_last h fs now ctx name subject = with_stream h fs ctx name λ s.
    elim (load_last_message h.quote s subject) [
      | err e ↦ "stream `" <> (ctx <> ("` / `" <> (name <> ("`: " <> e))))
      | ok m ↦ message_text now ctx name subject m
    ]
