-- ===== src/Chat/Details.antt =====
-- internal/chatops/consumers.go and cluster.go.
use natsie.Base.{
  ℕ, ◌+◌, String, ◌<>◌, List, [], ◌∷◌, Option, none, some, ◌==◌, string_eq, map, length,
  if◌then◌else◌,
}
use natsie.Base.Result.{ok, err}
use natsie.Go.Os.{Fs}
use natsie.Go.Duration.{duration_string}
use natsie.Go.Sort.{sort_slice}
use natsie.Go.Strings.{less, itoa, join}
use natsie.Go.Time.{Time, sub, truncate_second}
use natsie.Natsctx.{Host, connect, error_text}
use natsie.Chat.Api.{Nats, Manager, Stream}
use natsie.Chat.Render.{md_table, human_int, int_str, quoted, rows_upto, and_more}

-- What the commands on one context begin with.
unfoldable pub dialed_context : Host Nats → Fs → String → (Nats → String) → String
dialed_context h fs ctx text = elim (connect h fs ctx) [
  | err e ↦ "connect " <> (ctx <> (": " <> error_text h e))
  | ok nc ↦ text nc.conn
]

-- What the commands on one stream begin with.
unfoldable pub with_stream : Host Nats → Fs → String → String → (Stream → String) → String
unfolding dialed_context
with_stream h fs ctx stream text = dialed_context h fs ctx λ nc. elim nc.manager [
  | err e ↦ "jsm: " <> e
  | ok mgr ↦ elim (mgr.load_stream stream) [
    | err e ↦ "load stream `" <> (stream <> ("`: " <> e))
    | ok s ↦ text s
  ]
]

abbrev pub place : String → String → String
place ctx stream = "**`" <> (ctx <> ("` / `" <> (stream <> "`**")))

abbrev pub consumers_detail_limit : ℕ
consumers_detail_limit = 30

abbrev failed_row : String → String → List String
failed_row name e = quoted name ∷ "ERR" ∷ "—" ∷ "—" ∷ "—" ∷ e ∷ []

abbrev pub idle_text : Time → Option Time → String
idle_text now none = "—"
idle_text now (some t) = duration_string (truncate_second (sub now t))

-- One round of the loop of `consumersDetail`.
unfoldable pub consumer_row : Time → Stream → String → List String
consumer_row now s name = elim (s.load_consumer name) [
  | err e ↦ failed_row name e
  | ok _ ↦ elim (s.latest_state name) [
    | err e ↦ failed_row name e
    | ok info ↦
        quoted name
        ∷ (if info.push_bound then "push" else "pull")
        ∷ human_int info.num_pending
        ∷ int_str info.num_waiting
        ∷ int_str info.num_redelivered
        ∷ idle_text now info.last_acked
        ∷ []
  ]
]

abbrev more_consumers : ℕ → List String
more_consumers n = and_more n ∷ "" ∷ "" ∷ "" ∷ "" ∷ "" ∷ []

-- `consumersDetail`
unfoldable pub consumers_detail : Host Nats → Fs → Time → String → String → String
unfolding with_stream consumer_row
consumers_detail h fs now ctx stream = with_stream h fs ctx stream λ s. elim s.consumer_names [
  | err e ↦ "consumer names: " <> e
  | ok [] ↦ place ctx stream <> " has no consumers"
  | ok (n ∷ ns) ↦
      let names = sort_slice less (n ∷ ns) in
      place ctx stream
      <> (" — "
          <> (itoa (length names)
              <> (" consumers\n\n"
                  <> md_table
                      ("Consumer" ∷ "Kind" ∷ "Pending" ∷ "Waiting" ∷ "Redeliv." ∷ "Idle" ∷ [])
                      (rows_upto consumers_detail_limit more_consumers (consumer_row now s)
                        names))))
]

-- The loop of `writeJSFootprint`.
unfoldable pub visible_consumers : Manager → List String → ℕ
visible_consumers mgr [] = 0
visible_consumers mgr (name ∷ names) =
    let rest = visible_consumers mgr names in
    elim (mgr.load_stream name) [
      | err _ ↦ rest
      | ok s ↦ elim s.state [ err _ ↦ rest | ok state ↦ state.consumers + rest ]
    ]

-- `writeJSFootprint`
unfoldable pub footprint : Manager → String
unfolding visible_consumers
footprint mgr = elim mgr.stream_names [
  | err _ ↦ ""
  | ok names ↦
      "\n**JetStream footprint** — "
      <> (itoa (length names)
          <> (" streams, "
              <> (itoa (visible_consumers mgr names) <> " consumers (visible to this account)\n")))
]

abbrev server_row : Nats → String → List String
server_row nc url = url ∷ (if url == nc.connected_url then "✅" else "—") ∷ []

abbrev known_servers : Nats → String
known_servers nc = elim nc.servers [
  | [] ↦ ""
  | u ∷ us ↦
      "**Servers (known)**\n\n" <> md_table ("URL" ∷ "Current" ∷ []) (map (server_row nc) (u ∷ us))
]

abbrev discovered_peers : List String → String
discovered_peers [] = ""
discovered_peers (d ∷ ds) =
    "\n**Discovered peers** ("
    <> (itoa (length (d ∷ ds)) <> ("): " <> (join (map quoted (d ∷ ds)) ", " <> "\n")))

abbrev limits_note : String
limits_note =
    "\n_Server-reported limits (memory/storage reservations) need monitor-port or $SYS access; not available from a client account._\n"

unfoldable pub cluster_text : String → Nats → String
unfolding footprint
cluster_text ctx nc =
    let prints : String = elim nc.manager [ err _ ↦ "" | ok mgr ↦ footprint mgr ] in
    "**`"
    <> (ctx
        <> ("`** — connected to `"
            <> (nc.server_name
                <> ("` ("
                    <> (nc.server_version
                        <> ("), RTT "
                            <> (duration_string nc.rtt
                                <> ("\n\n"
                                    <> (known_servers nc
                                        <> (discovered_peers nc.discovered
                                            <> (prints <> limits_note)))))))))))

-- `clusterDetail`
unfoldable pub cluster_detail : Host Nats → Fs → String → String
unfolding dialed_context cluster_text
cluster_detail h fs ctx = dialed_context h fs ctx (cluster_text ctx)
