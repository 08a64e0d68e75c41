-- ===== src/Chat/Render.antt =====
-- internal/chatops/render.go, with `intStr` of clusters.go and the texts of signed values of stream.go.
use Prim.Native.Char.{code}
use Prim.Native.String.{[], ◌∷◌}
use natsie.Base.{
  ℕ, zero, suc, ◌+◌, ◌-◌, ◌*◌, ◌%◌, ◌^◌, String, ◌<>◌, List, ◌==◌, ℕ_eq, string_eq, map, leb,
  if◌then◌else◌, length,
}
use natsie.Base.Int.{ℤ, pos, negsuc, pos_part, leb_ℤ}
use natsie.Go.Float.{one_decimal}
use natsie.Go.Strings.{itoa, join}
use natsie.Go.Time.{Duration}
use natsie.Go.Duration.{duration_string}

-- `strings.ReplaceAll` of a single character.
unfoldable pub replace_char : ℕ → String → String → String
unfolding ℕ_eq
replace_char old new [] = ""
replace_char old new (c ∷ s) = (if code c == old then new else c ∷ "") <> replace_char old new s

-- `cellEscape`
unfoldable pub cell_escape : String → String
unfolding replace_char
cell_escape s = if s == "" then "" else replace_char b'\n' " " (replace_char b'|' "\\|" s)

unfoldable pub repeat : ℕ → String → String
repeat zero s = ""
repeat (suc n) s = s <> repeat n s

-- One round of the loop over the rows, for a table of `width` columns.
unfoldable pub row_text : ℕ → List String → String
unfolding cell_escape repeat
row_text width r =
    "| " <> (join (map cell_escape r) " | " <> (repeat (width - length r) " | " <> " |\n"))

unfoldable pub rows_text : ℕ → List (List String) → String
unfolding row_text
rows_text width List.[] = ""
rows_text width (List.◌∷◌ r rows) = row_text width r <> rows_text width rows

unfoldable pub header_text : List String → String
unfolding repeat
header_text headers =
    "| " <> (join headers " | " <> (" |\n|" <> (repeat (length headers) " --- |" <> "\n")))

-- `mdTable`
unfoldable pub md_table : List String → List (List String) → String
unfolding header_text rows_text
md_table List.[] rows = ""
md_table (List.◌∷◌ h hs) rows =
    header_text (List.◌∷◌ h hs) <> rows_text (length (List.◌∷◌ h hs)) rows

-- `humanInt`
unfoldable pub human_int : ℕ → String
human_int n =
    if leb 1000000000 n
    then one_decimal n 1000000000 <> "G"
    else if leb 1000000 n
    then one_decimal n 1000000 <> "M"
    else if leb 1000 n
    then one_decimal n 1000 <> "K"
    else itoa n

-- `humanBytes`
unfoldable pub human_bytes : ℕ → String
human_bytes n =
    if leb (1024 * 1024 * 1024) n
    then one_decimal n (1024 * 1024 * 1024) <> " GiB"
    else if leb (1024 * 1024) n
    then one_decimal n (1024 * 1024) <> " MiB"
    else if leb 1024 n
    then one_decimal n 1024 <> " KiB"
    else itoa n <> " B"

-- Go's `uint64(n)` of an int64.
abbrev pub to_uint64 : ℤ → ℕ
to_uint64 (pos n) = n % 2 ^ 64
to_uint64 (negsuc n) = 2 ^ 64 - 1 - n

-- `intStr`
unfoldable pub int_str : ℤ → String
unfolding human_int
int_str n = human_int (to_uint64 n)

-- `humanIntSigned`
unfoldable pub human_int_signed : ℤ → String
unfolding human_int
human_int_signed n = if leb_ℤ n (pos 0) then "—" else human_int (pos_part n)

-- `humanBytesSigned`
unfoldable pub human_bytes_signed : ℤ → String
unfolding human_bytes
human_bytes_signed n = if leb_ℤ n (pos 0) then "—" else human_bytes (pos_part n)

-- `durationOrDash`
unfoldable pub duration_or_dash : Duration → String
duration_or_dash d = if leb_ℤ d (pos 0) then "—" else duration_string d

-- A name between backticks.
abbrev pub quoted : String → String
quoted s = "`" <> (s <> "`")

module _ {ℓ} {A : Type ℓ} (limit : ℕ) (more : ℕ → List String) (row : A → List String) where
  -- A loop over the items from the place `i` on that stops at `limit` with a line on the rest.
  unfoldable pub rows_from : ℕ → ℕ → List A → List (List String)
  rows_from total i List.[] = List.[]
  rows_from total i (List.◌∷◌ a rest) =
      let later = List.◌∷◌ (row a) (rows_from total (i + 1) rest) in
      if leb limit i then List.◌∷◌ (more (total - limit)) List.[] else later

  unfoldable pub rows_upto : List A → List (List String)
  unfolding rows_from
  rows_upto items = rows_from (length items) 0 items

abbrev pub and_more : ℕ → String
and_more n = "…and " <> (itoa n <> " more")
