-- ===== src/Chat/StreamDetail.antt =====
-- internal/chatops/stream.go
use natsie.Base.{
  ℕ, String, ◌<>◌, List, [], ◌∷◌, ◌++◌, Option, none, some, ◌!=◌, string_eq, map, length,
  if◌then◌else◌,
}
use natsie.Base.Int.{pos, is_zero_ℤ}
use natsie.Base.Result.{ok, err}
use natsie.Go.Os.{Fs}
use natsie.Go.Duration.{duration_string}
use natsie.Go.Strings.{itoa, join}
use natsie.Natsctx.{Host}
use natsie.Chat.Api.{Nats, State, Config, Peer, Group, Information}
use natsie.Chat.Details.{with_stream, place}
use natsie.Chat.Render.{
  md_table, human_int, human_bytes, int_str, quoted, rows_upto, and_more, human_int_signed,
  human_bytes_signed, duration_or_dash,
}

abbrev state_table : State → String
state_table s = md_table ("Msgs" ∷ "Bytes" ∷ "Consumers" ∷ "First Seq" ∷ "Last Seq" ∷ []) (
    (human_int s.msgs
      ∷ human_bytes s.bytes
      ∷ int_str (pos s.consumers)
      ∷ human_int s.first_seq
      ∷ human_int s.last_seq
      ∷ [])
    ∷ [])

abbrev config_table : Config → String
config_table c =
    md_table ("Retention" ∷ "Storage" ∷ "Replicas" ∷ "Discard" ∷ [])
      ((quoted c.retention ∷ quoted c.storage ∷ int_str c.replicas ∷ quoted c.discard ∷ []) ∷ [])

abbrev limits_table : Config → String
limits_table c =
    md_table
      ("Max Age" ∷ "Max Bytes" ∷ "Max Msgs" ∷ "Max Msg Size" ∷ "Max Msgs/Subject" ∷ "Max Consumers"
        ∷ "Dup Window" ∷ [])
      ((duration_or_dash c.max_age
          ∷ human_bytes_signed c.max_bytes
          ∷ human_int_signed c.max_msgs
          ∷ human_bytes_signed c.max_msg_size
          ∷ human_int_signed c.max_msgs_per
          ∷ human_int_signed c.max_consumers
          ∷ duration_or_dash c.duplicates
          ∷ [])
        ∷ [])

abbrev subject_line : String → List String
subject_line s = ("- " <> (quoted s <> "\n")) ∷ []

abbrev more_subjects : ℕ → List String
more_subjects n = ("- " <> (and_more n <> "\n")) ∷ []

-- The lines of a loop, one after the other.
unfoldable pub lines_text : List (List String) → String
lines_text [] = ""
lines_text (line ∷ rest) = join line "" <> lines_text rest

abbrev subjects_text : List String → String
subjects_text [] = ""
subjects_text (s ∷ ss) =
    "\n**Subjects** ("
    <> (itoa (length (s ∷ ss))
        <> (")\n\n" <> lines_text (rows_upto 10 more_subjects subject_line (s ∷ ss))))

abbrev replica_row : Peer → List String
replica_row r =
    "replica"
    ∷ r.name
    ∷ (if r.current then "✅" else "❌")
    ∷ (if is_zero_ℤ r.active then "—" else duration_string r.active)
    ∷ []

abbrev leader_rows : String → List (List String)
leader_rows leader = if leader != "" then ("leader" ∷ leader ∷ "—" ∷ "—" ∷ []) ∷ [] else []

abbrev group_text : Option Group → String
group_text none = ""
group_text (some g) =
    "\n**Cluster**\n\n"
    <> md_table ("Role" ∷ "Name" ∷ "Current" ∷ "Last Active" ∷ [])
        (leader_rows g.leader ++ map replica_row g.replicas)

unfoldable pub stream_text : String → String → Config → Information → String
unfolding lines_text
stream_text ctx name cfg info =
    place ctx name
    <> ("\n\n**State**\n\n"
        <> (state_table info.state
            <> ("\n**Configuration**\n\n"
                <> (config_table cfg
                    <> ("\n**Limits**\n\n"
                        <> (limits_table cfg
                            <> (subjects_text cfg.subjects <> group_text info.cluster)))))))

-- `streamDetail`
unfoldable pub stream_detail : Host Nats → Fs → String → String → String
unfolding stream_text
stream_detail h fs ctx name = with_stream h fs ctx name λ s. elim s.information [
  | err e ↦ "info `" <> (name <> ("`: " <> e))
  | ok info ↦ stream_text ctx name s.config info
]
