-- ===== src/Chat/Contexts.antt =====
-- internal/chatops/clusters.go, and the choice of contexts in streams.go and usage.go.
use Prim.Native.Char.{Char, code}
use Prim.Native.String.{[], ◌∷◌}
use natsie.Base.{
  ℕ, ◌+◌, ◌-◌, String, ◌<>◌, Bool, true, false, List, none, some, ◌==◌, ◌!=◌, string_eq, map, keep,
  count_if, leb, ltb, if◌then◌else◌, length,
}
use natsie.Base.Int.{pos}
use natsie.Base.Result.{ok, err}
use natsie.Go.Os.{Fs}
use natsie.Natsctx.{Host, Info, list, probe, error_text, probe_text}
use natsie.Chat.Api.{Nats}
use natsie.Chat.Render.{md_table, int_str, quoted}

-- The length of a character in UTF-8.
unfoldable pub byte_length : Char → ℕ
byte_length c =
    if ltb (code c) 0x80
    then 1
    else if ltb (code c) 0x800
    then 2
    else if ltb (code c) 0x10000
    then 3
    else 4

unfoldable pub byte_count : String → ℕ
unfolding byte_length
byte_count [] = 0
byte_count (c ∷ s) = byte_length c + byte_count s

-- The whole characters among the first bytes.
unfoldable pub take_bytes : ℕ → String → String
unfolding byte_length
take_bytes n [] = ""
take_bytes n (c ∷ s) =
    let longer = c ∷ take_bytes (n - byte_length c) s in
    if leb (byte_length c) n then longer else ""

-- `truncate`, for cuts between two characters. Go keeps the first bytes of a character that is cut.
unfoldable pub truncate : String → ℕ → String
unfolding byte_count take_bytes
truncate s n = if leb (byte_count s) n then s else take_bytes (n - 1) s <> "…"

module _ (h : Host Nats) (fs : Fs) where
  abbrev pub is_reachable : Info → Bool
  is_reachable info = elim (probe h fs info.name) [ none ↦ true | some _ ↦ false ]

  unfoldable pub cluster_row : Info → List String
  unfolding truncate
  cluster_row info =
      let status : String = elim (probe h fs info.name) [
        | none ↦ "✅ reachable"
        | some e ↦ "❌ " <> truncate (probe_text h e) 40
      ] in
      List.◌∷◌ (quoted info.name)
        (List.◌∷◌ (quoted info.url) (List.◌∷◌ info.user (List.◌∷◌ status List.[])))

  abbrev cluster_headers : List String
  cluster_headers = List.◌∷◌ "Name" (List.◌∷◌ "URL" (List.◌∷◌ "User" (List.◌∷◌ "Status" List.[])))

  -- `clusters`. The probes run side by side; each writes its own place.
  unfoldable pub clusters : String
  unfolding cluster_row
  clusters = elim (list h fs) [
    | err e ↦ "list contexts failed: " <> error_text h e
    | ok List.[] ↦ "no NATS contexts configured for this natsie instance"
    | ok (List.◌∷◌ i infos) ↦
        let all = List.◌∷◌ i infos in
        let reachable = count_if is_reachable all in
        "**Clusters this natsie instance can dial** (reachable: "
        <> (int_str (pos reachable)
            <> (" / "
                <> (int_str (pos (length all))
                    <> (")\n\n" <> md_table cluster_headers (map cluster_row all)))))
  ]

abbrev pub named : String → List Info → List Info
named target infos = keep (λ i. i.name == target) infos

unfoldable pub texts_of : (String → String) → List Info → String
texts_of text List.[] = ""
texts_of text (List.◌∷◌ i infos) = text i.name <> ("\n" <> texts_of text infos)

-- What `streams` and `usage` share: a text for each context, or for the one that is named.
unfoldable pub for_contexts : Host Nats → Fs → String → String → String → (String → String) → String
unfolding texts_of
for_contexts h fs target hint nothing text = elim (list h fs) [
  | err e ↦ "list contexts failed: " <> error_text h e
  | ok infos ↦
      let every : String = elim infos [
        | List.[] ↦ nothing
        | List.◌∷◌ i rest ↦ texts_of text (List.◌∷◌ i rest)
      ] in
      let chosen : String = elim (named target infos) [
        | List.[] ↦ "no context named `" <> (target <> ("`. " <> hint))
        | List.◌∷◌ i rest ↦ texts_of text (List.◌∷◌ i rest)
      ] in
      if target != "" then chosen else every
]
