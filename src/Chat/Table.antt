-- ===== src/Chat/Table.antt =====
-- The tables of Chat/Render: their rows and columns as the reader of the chat sees them.
use natsie.Base.{
  ℕ, zero, suc, ◌+◌, ◌-◌, ◌*◌, ◌≤◌, ◌<◌, String, ◌<>◌, <>_assoc, <>-nil, Bool, false, List, ℕ_eq,
  string_eq, map, length, ◌≡◌, refl, sym, ap, ◌∙◌, arith, All,
}
use natsie.Go.Strings.{join}
use natsie.Chat.Render.{cell_escape, repeat, row_text, rows_text, header_text, md_table}
use natsie.Chat.Bars.{
  bars, breaks, escape, cell_escape-eq-escape, breaks-append, bars-join, breaks-join,
}

map-escape : (r : List String) → map cell_escape r ≡ map escape r
map-escape List.[] = refl
map-escape (List.◌∷◌ a r) = rw (cell_escape-eq-escape a, map-escape r) refl

-- What follows the cells of a row, behind its first space.
tail : ℕ → String → String
unfolding repeat
tail zero t = "|\n" <> t
tail (suc k) t = "| " <> (repeat k " | " <> (" |\n" <> t))

pads-eq-tail : (k : ℕ) (t : String) → repeat k " | " <> (" |\n" <> t) ≡ " " <> tail k t
unfolding repeat tail
pads-eq-tail zero t = refl
pads-eq-tail (suc k) t = refl

bars-tail : (k : ℕ) (t : String) → bars false (tail k t) ≡ suc k + bars false t
unfolding tail bars ℕ_eq
bars-tail zero t = omega arith
bars-tail (suc k) t = rw (pads-eq-tail k t) (omega (arith, bars-tail k t))

breaks-repeat : (k : ℕ) → breaks (repeat k " | ") ≡ 0
unfolding breaks repeat ℕ_eq
breaks-repeat zero = omega arith
breaks-repeat (suc k) = omega (arith, breaks-repeat k)

row_text-append :
    (width : ℕ) (a : String) (r : List String) (t : String)
    → row_text width (List.◌∷◌ a r) <> t
      ≡ "| "
        <> (join (map escape (List.◌∷◌ a r)) " | "
            <> (" " <> tail (width - length (List.◌∷◌ a r)) t))
unfolding row_text
row_text-append width a r t =
    let cells = join (map escape (List.◌∷◌ a r)) " | " in
    let pads = repeat (width - length (List.◌∷◌ a r)) " | " in
    rw map-escape
      (rw (<>_assoc cells (pads <> " |\n") t) (rw (<>_assoc pads " |\n" t) (rw pads-eq-tail refl)))

-- A row of a table of `width` columns, with a cell at least and no more than there are columns.
abbrev pub Fits : ℕ → List String → Type 0
Fits width r = (0 < length r) × (length r ≤ width)

bars-row_text :
    (width : ℕ) (r : List String) (t : String)
    → Fits width r
    → bars false (row_text width r <> t) ≡ suc width + bars false t
unfolding bars ℕ_eq
bars-row_text width List.[] t fits = absurd (omega (arith, fits.0))
bars-row_text width (List.◌∷◌ a r) t fits =
    let k = width - length (List.◌∷◌ a r) in
    rw (row_text-append width a r t)
      (omega (arith, bars-join false a r (tail k t), bars-tail k t, fits.1))

breaks-row_text :
    (width : ℕ) (r : List String) (t : String) → breaks (row_text width r <> t) ≡ suc (breaks t)
unfolding row_text breaks ℕ_eq
breaks-row_text width r t =
    let cells = join (map cell_escape r) " | " in
    let pads = repeat (width - length r) " | " in
    let none_in_cells : breaks cells ≡ 0 = rw (map-escape r) (breaks-join r) in
    omega (
      arith,
      breaks-append (cells <> (pads <> " |\n")) t,
      breaks-append cells (pads <> " |\n"),
      breaks-append pads " |\n",
      breaks-repeat (width - length r),
      none_in_cells,
    )

rows_text-IsGrid :
    (width : ℕ) (rows : List (List String))
    → All (Fits width) rows
    → (bars false (rows_text width rows) ≡ length rows * suc width)
      × (breaks (rows_text width rows) ≡ length rows)
unfolding rows_text bars breaks
rows_text-IsGrid width List.[] fits = (omega arith, omega arith)
rows_text-IsGrid width (List.◌∷◌ r rows) (fits, more) =
    let rest = rows_text width rows in
    let (later, ends) = rows_text-IsGrid width rows more in
    (
      omega (arith, bars-row_text width r rest fits, later),
      omega (arith, breaks-row_text width r rest, ends),
    )

-- A row on its own.
abbrev pub IsRow : ℕ → List String → Type 0
IsRow width r = (bars false (row_text width r) ≡ suc width) × (breaks (row_text width r) ≡ 1)

All-IsRow : (width : ℕ) (rows : List (List String)) → All (Fits width) rows → All (IsRow width) rows
unfolding bars breaks
All-IsRow width List.[] fits = tt
All-IsRow width (List.◌∷◌ r rows) (fits, more) =
    let bare = <>-nil (row_text width r) in
    (
      (
        ap (bars false) (sym bare) ∙ omega (arith, bars-row_text width r "" fits),
        ap breaks (sym bare) ∙ omega (arith, breaks-row_text width r ""),
      ),
      All-IsRow width rows more,
    )

-- A header cell, which the table does not escape, with nothing to escape.
abbrev pub IsPlain : String → Type 0
IsPlain h = cell_escape h ≡ h

map-escape-IsPlain : (hs : List String) → All IsPlain hs → map escape hs ≡ hs
map-escape-IsPlain List.[] plain = refl
map-escape-IsPlain (List.◌∷◌ h hs) (plain, more) =
    rw (sym (cell_escape-eq-escape h) ∙ plain, map-escape-IsPlain hs more) refl

dashes-IsGrid :
    (k : ℕ) (b : Bool) (t : String)
    → (bars b (repeat k " --- |" <> ("\n" <> t)) ≡ k + bars false t)
      × (breaks (repeat k " --- |" <> ("\n" <> t)) ≡ suc (breaks t))
unfolding bars breaks repeat ℕ_eq
dashes-IsGrid zero b t = (omega arith, omega arith)
dashes-IsGrid (suc k) b t =
    let (later, ends) = dashes-IsGrid k false t in (omega (arith, later), omega (arith, ends))

header_text-IsGrid :
    (h : String) (hs : List String) (t : String)
    → All IsPlain (List.◌∷◌ h hs)
    → (bars false (header_text (List.◌∷◌ h hs) <> t) ≡ 2 * suc (suc (length hs)) + bars false t)
      × (breaks (header_text (List.◌∷◌ h hs) <> t) ≡ 2 + breaks t)
unfolding header_text bars breaks ℕ_eq
header_text-IsGrid h hs t plain =
    let cells = join (map escape (List.◌∷◌ h hs)) " | " in
    let dashes = repeat (suc (length hs)) " --- |" in
    let (later, ends) = dashes-IsGrid (suc (length hs)) false t in
    rw
      (
        ← map-escape-IsPlain (List.◌∷◌ h hs) plain,
        <>_assoc cells (" |\n|" <> (dashes <> "\n")) t,
        <>_assoc dashes "\n" t,
      )
      (
        omega (arith, bars-join false h hs ("|\n|" <> (dashes <> ("\n" <> t))), later),
        omega (
          arith,
          breaks-append cells (" |\n|" <> (dashes <> ("\n" <> t))),
          breaks-join (List.◌∷◌ h hs),
          ends,
        ),
      )

-- A table is a grid for the reader of the chat, whatever its cells contain, bars and line breaks too.
-- Let no header have anything to escape, and let every row have at least one cell and no more cells than
-- there are headers. Then the table has two line breaks and one more for each row, and for each of
-- these lines one bar more than there are headers, counting the bars that no backslash stands before;
-- and the text of each row has just that number of bars, and one line break.
pub md_table-IsGrid :
    (h : String) (hs : List String) (rows : List (List String))
    → All IsPlain (List.◌∷◌ h hs)
    → All (Fits (length (List.◌∷◌ h hs))) rows
    → (bars false (md_table (List.◌∷◌ h hs) rows)
        ≡ (2 + length rows) * suc (length (List.◌∷◌ h hs)))
      × (breaks (md_table (List.◌∷◌ h hs) rows) ≡ 2 + length rows)
      × All (IsRow (length (List.◌∷◌ h hs))) rows
unfolding md_table
md_table-IsGrid h hs rows plain fits =
    let width = suc (length hs) in
    let (top, top_breaks) = header_text-IsGrid h hs (rows_text width rows) plain in
    let (below, below_breaks) = rows_text-IsGrid width rows fits in
    (omega (arith, top, below), omega (arith, top_breaks, below_breaks), All-IsRow width rows fits)
