-- ===== src/Chat/Usage.antt =====
-- internal/chatops/usage.go
use natsie.Base.{ℕ, ◌%◌, ◌^◌, String, ◌<>◌, Bool, List, [], ◌∷◌, ltb, length, sum_of}
use natsie.Base.Int.{ℤ, pos}
use natsie.Base.Result.{ok, err}
use natsie.Go.Os.{Fs}
use natsie.Go.Sort.{sort_slice}
use natsie.Go.Strings.{itoa, itoa_int}
use natsie.Natsctx.{Host}
use natsie.Chat.Api.{Nats, Manager}
use natsie.Chat.Contexts.{for_contexts}
use natsie.Chat.Render.{md_table, human_int, human_bytes, int_str, quoted, rows_upto, and_more}
use natsie.Chat.Streams.{headed, with_manager}

-- The local type `entry` of `usageFor`.
pub record Usage : Type 0 where
  pub name : String
  pub msgs : ℕ
  pub bytes : ℕ
  pub consumers : ℕ
  pub replicas : ℤ

-- The loop over the streams; those that cannot be read are passed over.
unfoldable pub usages : Manager → List String → List Usage
usages mgr [] = []
usages mgr (name ∷ names) =
    let rest = usages mgr names in
    elim (mgr.load_stream name) [
      | err _ ↦ rest
      | ok s ↦ elim s.state [
        | err _ ↦ rest
        | ok state ↦
            record {
              name = name;
              msgs = state.msgs;
              bytes = state.bytes;
              consumers = state.consumers;
              replicas = s.config.replicas;
            }
            ∷ rest
      ]
    ]

-- The sums `totalMsgs` and `totalBytes`, which are uint64.
abbrev pub total : (Usage → ℕ) → List Usage → ℕ
total f us = sum_of f us % 2 ^ 64

-- Streams of the same size may come in another order.
abbrev pub more_bytes : Usage → Usage → Bool
more_bytes a b = ltb b.bytes a.bytes

abbrev pub usage_top_n : ℕ
usage_top_n = 10

unfoldable pub usage_row : Usage → List String
usage_row e =
    quoted e.name
    ∷ human_int e.msgs
    ∷ human_bytes e.bytes
    ∷ int_str (pos e.consumers)
    ∷ ("R=" <> itoa_int e.replicas)
    ∷ []

abbrev more_usages : ℕ → List String
more_usages n = and_more n ∷ "" ∷ "" ∷ "" ∷ "" ∷ []

unfoldable pub usage_text : String → List Usage → String
unfolding usage_row
usage_text name us =
    let entries = sort_slice more_bytes us in
    let counts =
      itoa (length entries)
      <> (" streams, "
          <> (human_int (total (λ u. u.msgs) us)
              <> (" msgs, "
                  <> (human_bytes (total (λ u. u.bytes) us)
                      <> (", " <> (itoa (sum_of (λ u. u.consumers) us) <> " consumers\n\n")))))) in
    let rows : String = elim entries [
      | [] ↦ "_no streams_\n"
      | e ∷ es ↦
          "Top streams by bytes:\n\n"
          <> md_table ("Stream" ∷ "Msgs" ∷ "Bytes" ∷ "Consumers" ∷ "Repl" ∷ [])
              (rows_upto usage_top_n more_usages usage_row (e ∷ es))
    ] in
    headed name (counts <> rows)

-- `usageFor`
unfoldable pub usage_for : Host Nats → Fs → String → String
unfolding usages usage_text
usage_for h fs name = with_manager h fs name λ mgr. elim mgr.stream_names [
  | err e ↦ headed name ("list streams: " <> (e <> "\n"))
  | ok names ↦ usage_text name (usages mgr names)
]

-- `usage`
unfoldable pub usage : Host Nats → Fs → String → String
unfolding usage_for
usage h fs target =
    for_contexts h fs target "Try `usage` with no argument." "no NATS contexts configured"
      (usage_for h fs)
