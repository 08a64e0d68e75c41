-- ===== src/Bot/Messages.antt =====
-- serve.go: the texts that the bot posts.
use natsie.Base.{
  ℕ, suc, ◌-◌, String, ◌<>◌, Bool, true, false, ◌&&◌, List, [], ◌∷◌, ◌!=◌, ◌==◌, string_eq, ℕ_eq,
  if◌then◌else◌, length,
}
use natsie.Go.Duration.{duration_string}
use natsie.Go.Strings.{itoa, itoa_int, join, trim_suffix}
use natsie.Approve.{Mac}
use natsie.Bot.{Schedule}
use natsie.Cleanup.{
  Action, Event, Outcome, summary, deleted, would, gone, skip, active, protect, failed, conn_fail,
}
use natsie.Manifest.{Manifest, Entry}
use natsie.Scanner.Peers.{PeerRow}
use natsie.Scanner.StreamReport.{StreamReportRow, ServerLoad}

-- `notify.Message`
pub record Message : Type 0 where
  pub title : String
  pub body : String
  pub manifest_id : String
  pub link : String

abbrev plural : ℕ → String
plural n = if n == 1 then "" else "s"

abbrev entry_line : Entry → String
entry_line e =
    "- `"
    <> (e.stream
        <> ("/"
            <> (e.consumer
                <> ("` (pending="
                    <> (itoa_int e.num_pending
                        <> (", idle=" <> (duration_string e.idle <> ")\n")))))))

-- The first lines of a list, at most so many, then how many more there are.
unfoldable pub lines_upto : {A : Type 0} → (A → String) → ℕ → List A → String
lines_upto line n [] = ""
lines_upto line n (x ∷ xs) =
    let rest = lines_upto line (n - 1) xs in
    if n == 0 then "...and " <> (itoa (suc (length xs)) <> " more\n") else line x <> rest

-- `buildMessage`
unfoldable pub build_message : Mac → Schedule → Manifest → String → String → String → Message
unfolding lines_upto
build_message mac s m id base_url key =
    let base = trim_suffix base_url "/" in
    record {
      title = "natsie cleanup candidates (" <> (s.name <> ")");
      body =
          "Schedule **"
          <> (s.name
              <> ("** found "
                  <> (itoa (length m.entries)
                      <> (" stale consumer"
                          <> (plural (length m.entries)
                              <> (":\n"
                                  <> (lines_upto entry_line 10 m.entries
                                      <> (if base != "" && key != ""
                                          then "\nApprove: "
                                            <> (base
                                                <> ("/approve/"
                                                    <> (id <> ("?token=" <> (mac key id <> "\n")))))
                                          else ""))))))));
      manifest_id = id;
      link = if base != "" then base <> ("/manifest/" <> id) else "";
    }

-- `buildOwnerMessage`
unfoldable pub build_owner_message : Schedule → String → List Entry → Message
unfolding lines_upto
build_owner_message s owner entries = record {
  title = "natsie cleanup candidates for " <> (owner <> (" (" <> (s.name <> ")")));
  body =
      "Schedule **"
      <> (s.name
          <> ("** flagged "
              <> (itoa (length entries)
                  <> (" consumer"
                      <> (plural (length entries)
                          <> (" owned by **"
                              <> (owner
                                  <> ("**:\n"
                                      <> (lines_upto entry_line 10 entries
                                          <> "\n_Approval happens centrally — flag any of these to your operator if they should be preserved._")))))))));
  manifest_id = "";
  link = "";
}

-- The texts of `Action`.
abbrev action_text : Action → String
action_text deleted = "DELETED"
action_text would = "WOULD"
action_text gone = "GONE"
action_text skip = "SKIP"
action_text active = "ACTIVE"
action_text protect = "PROTECTED"
action_text failed = "FAIL"
action_text conn_fail = "CONN"

abbrev is_shown : Event → Bool
is_shown ev = elim ev.action [ deleted ↦ true | failed ↦ true | _ ↦ false ]

abbrev event_line : Event → String
event_line ev =
    "- `"
    <> (ev.target.stream
        <> ("/"
            <> (ev.target.consumer
                <> ("` " <> (action_text ev.action <> (" " <> (ev.detail <> "\n")))))))

-- The loop over the events, with `shown` counted down from 10.
unfoldable pub event_lines : ℕ → List Event → String
event_lines n [] = ""
event_lines n (ev ∷ evs) =
    let rest = event_lines n evs in
    let later = event_lines (n - 1) evs in
    if is_shown ev
    then (if n == 0 then "...and more, see the audit log\n" else event_line ev <> later)
    else rest

-- `buildAutoDeleteMessage`
unfoldable pub build_auto_delete_message : Schedule → Outcome → Message
unfolding event_lines
build_auto_delete_message s r = record {
  title = "natsie auto-delete (" <> (s.name <> ")");
  body =
      "Schedule **"
      <> (s.name
          <> ("** auto-deleted "
              <> (itoa r.deleted
                  <> (" stale consumer"
                      <> (plural r.deleted
                          <> (".\n\n" <> (summary r <> ("\n\n" <> event_lines 10 r.events))))))));
  manifest_id = "";
  link = "";
}

abbrev peer_line : PeerRow → String
peer_line g =
    "- `"
    <> (g.peer
        <> ("` (offline in "
            <> (itoa g.offline
                <> ("/"
                    <> (itoa g.groups
                        <> (" Raft groups, e.g. " <> (join g.sample ", " <> ")\n")))))))

-- `buildPeerCheckMessage`
unfoldable pub build_peer_check_message : Schedule → List PeerRow → Message
unfolding lines_upto
build_peer_check_message s ghosts = record {
  title = "natsie ghost peers (" <> (s.name <> ")");
  body =
      "Schedule **"
      <> (s.name
          <> ("** found "
              <> (itoa (length ghosts)
                  <> (" ghost peer"
                      <> (plural (length ghosts)
                          <> (" on `"
                              <> (s.context
                                  <> ("`:\n"
                                      <> (lines_upto peer_line 20 ghosts
                                          <> "\n_Offline in every Raft group that lists them and leading none — likely a server removed without `peer-remove` and still pinned into replica sets._")))))))));
  manifest_id = "";
  link = "";
}

abbrev under_line : StreamReportRow → String
under_line r =
    "- `"
    <> (r.stream <> ("` (R=" <> (itoa_int r.replicas <> (", msgs=" <> (itoa r.messages <> ")\n")))))

abbrev load_line : ServerLoad → String
load_line l =
    "- `"
    <> (l.server <> ("` leads " <> (itoa l.leads <> (", hosts " <> (itoa l.replicas <> "\n")))))

unfoldable pub load_lines : ℕ → List ServerLoad → String
load_lines n [] = ""
load_lines n (l ∷ ls) =
    let rest = load_lines (n - 1) ls in if n == 0 then "" else load_line l <> rest

-- `buildStreamReportMessage`
unfoldable pub build_stream_report_message :
    Schedule → List StreamReportRow → List ServerLoad → Message
unfolding lines_upto load_lines
build_stream_report_message s under skew = record {
  title = "natsie under-replicated streams (" <> (s.name <> ")");
  body =
      "Schedule **"
      <> (s.name
          <> ("** found "
              <> (itoa (length under)
                  <> (" under-replicated stream"
                      <> (plural (length under)
                          <> (" on `"
                              <> (s.context
                                  <> ("`:\n"
                                      <> (lines_upto under_line 20 under
                                          <> ((elim skew [
                                            | [] ↦ ""
                                            | l ∷ ls ↦
                                                "\nPlacement skew (top servers):\n"
                                                <> load_lines 5 (l ∷ ls)
                                          ])
                                              <> "\n_R<2 means no redundancy — a single node loss takes the stream offline. Raise replicas with a stream edit._"))))))))));
  manifest_id = "";
  link = "";
}
