-- ===== src/Chat/Bars.antt =====
-- What Mattermost reads in the texts of Chat/Render: a bar ends a cell unless a backslash stands
-- before it, and a line break ends a row.
use Prim.Native.Char.{Char, code}
use Prim.Native.String.{[], ◌∷◌}
use natsie.Base.{
  ℕ, ◌+◌, String, ◌<>◌, <>_assoc, Bool, true, false, not, ◌&&◌, List, ◌==◌, ℕ_eq, string_eq, map,
  length, if◌then◌else◌, ◌≡◌, refl, ◌∙◌, arith, inl, inr, Bool-cases, eq→==, ne→==,
}
use natsie.Go.Strings.{join}
use natsie.Chat.Render.{replace_char, cell_escape}

-- The bars that end a cell; `escaped` says whether a backslash stands before the text.
unfoldable pub bars : Bool → String → ℕ
unfolding ℕ_eq
bars escaped [] = 0
bars escaped (c ∷ s) = (if code c == b'|' && not escaped then 1 else 0) + bars (code c == b'\\') s

unfoldable pub breaks : String → ℕ
unfolding ℕ_eq
breaks [] = 0
breaks (c ∷ s) = (if code c == b'\n' then 1 else 0) + breaks s

unfoldable pub escape : String → String
unfolding replace_char
escape s = replace_char b'\n' " " (replace_char b'|' "\\|" s)

module _ (c : Char) (s : String) where
  escape-bar : (code c == b'|') ≡ true → escape (c ∷ s) ≡ "\\|" <> escape s
  unfolding escape replace_char ℕ_eq
  escape-bar e = rw (e, replace_char) refl

  escape-break :
      (code c == b'|') ≡ false → (code c == b'\n') ≡ true → escape (c ∷ s) ≡ " " <> escape s
  unfolding escape replace_char ℕ_eq
  escape-break e f = rw (e, f, replace_char) refl

  escape-other :
      (code c == b'|') ≡ false → (code c == b'\n') ≡ false → escape (c ∷ s) ≡ c ∷ escape s
  unfolding escape replace_char ℕ_eq
  escape-other e f = rw (e, f, replace_char) refl

pub cell_escape-eq-escape : (s : String) → cell_escape s ≡ escape s
unfolding cell_escape escape replace_char
cell_escape-eq-escape s = elim (string_eq.dec s "") [
  | yes e ↦ rw (eq→== s "" e) (rw e refl)
  | no n ↦ rw (ne→== s "" n) refl
]

bars-cons :
    (b : Bool) (c : Char) (t : String)
    → (code c == b'|') ≡ false
    → bars b (c ∷ t) ≡ bars (code c == b'\\') t
unfolding bars
bars-cons b c t e = rw (e, bars) (omega arith)

bars-escape : (b : Bool) (s t : String) → bars b (escape s <> (" " <> t)) ≡ bars false t
unfolding bars escape replace_char ℕ_eq
bars-escape b [] t = omega arith
bars-escape b (c ∷ s) t = elim (Bool-cases (code c == b'|')) [
  | inl e ↦ rw (escape-bar c s e) (omega (arith, bars-escape false s t))
  | inr e ↦ elim (Bool-cases (code c == b'\n')) [
    | inl f ↦ rw (escape-break c s e f) (omega (arith, bars-escape false s t))
    | inr f ↦ rw (escape-other c s e f) (bars-cons b c _ e ∙ bars-escape (code c == b'\\') s t)
  ]
]

pub breaks-append : (s t : String) → breaks (s <> t) ≡ breaks s + breaks t
unfolding breaks
breaks-append [] t = omega arith
breaks-append (c ∷ s) t = omega (arith, breaks-append s t)

breaks-escape : (s : String) → breaks (escape s) ≡ 0
unfolding breaks escape replace_char ℕ_eq
breaks-escape [] = omega arith
breaks-escape (c ∷ s) = elim (Bool-cases (code c == b'|')) [
  | inl e ↦ rw (escape-bar c s e) (omega (arith, breaks-escape s))
  | inr e ↦ elim (Bool-cases (code c == b'\n')) [
    | inl f ↦ rw (escape-break c s e f) (omega (arith, breaks-escape s))
    | inr f ↦ rw (escape-other c s e f) (rw (f, breaks) (omega (arith, breaks-escape s)))
  ]
]

-- The cells of a row, before a text that begins with a space.
pub bars-join :
    (b : Bool) (a : String) (r : List String) (t : String)
    → bars b (join (map escape (List.◌∷◌ a r)) " | " <> (" " <> t)) ≡ length r + bars false t
unfolding join bars ℕ_eq
bars-join b a List.[] t = omega (arith, bars-escape b a t)
bars-join b a (List.◌∷◌ a' r) t =
    let later = join (map escape (List.◌∷◌ a' r)) " | " in
    rw (<>_assoc (escape a) (" | " <> later) (" " <> t))
      (omega (arith, bars-escape b a ("| " <> (later <> (" " <> t))), bars-join false a' r t))

pub breaks-join : (r : List String) → breaks (join (map escape r) " | ") ≡ 0
unfolding join breaks ℕ_eq
breaks-join List.[] = omega arith
breaks-join (List.◌∷◌ a List.[]) = breaks-escape a
breaks-join (List.◌∷◌ a (List.◌∷◌ a' r)) = omega (
  arith,
  breaks-append (escape a) (" | " <> join (map escape (List.◌∷◌ a' r)) " | "),
  breaks-escape a,
  breaks-join (List.◌∷◌ a' r),
)
