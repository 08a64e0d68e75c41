-- ===== src/Go/Path.antt =====
-- `path.Match`: shell patterns over code points. A pattern is cut into chunks at its stars, and the
-- chunks are matched from the left, as Go does, each at the first place where it fits. Go also tries the
-- places inside a character of several bytes.
use Prim.Native.Char.{code}
use Prim.Native.String.{String}
use natsie.Base.{
  ℕ, Bool, true, false, not, ◌&&◌, ◌||◌, List, [], ◌∷◌, ◌++◌, Option, none, some, leb,
  if◌then◌else◌, ◌==◌, ◌!=◌, ℕ_eq, ◌≡◌, refl,
}

pub data Token : Type 0 where
  lit : ℕ → Token
  any : Token
  class : Bool → List (ℕ × ℕ) → Token

pub data Item : Type 0 where
  star : Item
  token : Token → Item

-- Where the reader stands: `lo` and `hi` wait for the ends of a range of the class.
pub data Mode : Type 0 where
  outside escaped opened : Mode
  lo lo_escaped : Bool → List (ℕ × ℕ) → Mode
  after hi hi_escaped : Bool → List (ℕ × ℕ) → ℕ → Mode

codes : String → List ℕ
codes String.[] = []
codes (String.◌∷◌ c s) = code c ∷ codes s

read_outside : ℕ → Mode × List Item
read_outside c =
    if c == b'*'
    then (outside, star ∷ [])
    else if c == b'?'
    then (outside, token any ∷ [])
    else if c == b'['
    then (opened, [])
    else if c == b'\\'
    then (escaped, [])
    else (outside, token (lit c) ∷ [])

-- The first end of a range. `]` closes a class that has a range, and is an error before.
read_lo : Bool → List (ℕ × ℕ) → ℕ → Option (Mode × List Item)
read_lo negated [] c =
    if c == b']' || c == b'-'
    then none
    else if c == b'\\'
    then some (lo_escaped negated [], [])
    else some (after negated [] c, [])
read_lo negated (r ∷ rs) c =
    if c == b']'
    then some (outside, token (class negated (r ∷ rs)) ∷ [])
    else if c == b'-'
    then none
    else if c == b'\\'
    then some (lo_escaped negated (r ∷ rs), [])
    else some (after negated (r ∷ rs) c, [])

read : Mode → ℕ → Option (Mode × List Item)
unfolding read_outside read_lo
read outside c = some (read_outside c)
read escaped c = some (outside, token (lit c) ∷ [])
read opened c = if c == b'^' then some (lo true [], []) else read_lo false [] c
read (lo negated rs) c = read_lo negated rs c
read (lo_escaped negated rs) c = some (after negated rs c, [])
read (after negated rs a) c =
    if c == b'-' then some (hi negated rs a, []) else read_lo negated ((a, a) ∷ rs) c
read (hi negated rs a) c =
    if c == b']' || c == b'-'
    then none
    else if c == b'\\'
    then some (hi_escaped negated rs a, [])
    else some (lo negated ((a, c) ∷ rs), [])
read (hi_escaped negated rs a) c = some (lo negated ((a, c) ∷ rs), [])

infixl 5 ◌>>=◌
abbrev ◌>>=◌ {ℓ κ} : {A : Type ℓ} {B : Type κ} → Option A → (A → Option B) → Option B
none >>= k = none
some a >>= k = k a

-- `none` is `ErrBadPattern`: a pattern that ends inside an escape or a class, too.
items : Mode → List ℕ → Option (List Item)
unfolding read
items outside [] = some []
items _ [] = none
items m (c ∷ s) = do (m', out) ← read m c; rest ← items m' s; some (out ++ rest)

behind_star : List Token → List (List Token) → List (List Token)
behind_star [] (chunk ∷ more) = chunk ∷ more
behind_star lead more = lead ∷ more

-- The tokens before the first star, and those behind each star; stars in a row are one.
cut : List Item → List Token × List (List Token)
unfolding behind_star
cut [] = ([], [])
cut (token t ∷ r) = let (lead, more) = cut r in (t ∷ lead, more)
cut (star ∷ r) = let (lead, more) = cut r in ([], behind_star lead more)

in_ranges : ℕ → List (ℕ × ℕ) → Bool
in_ranges c [] = false
in_ranges c ((a, b) ∷ rs) = (leb a c && leb c b) || in_ranges c rs

fits : Token → ℕ → Bool
unfolding in_ranges
fits (lit d) c = d == c
fits any c = c != b'/'
fits (class true rs) c = not (in_ranges c rs)
fits (class false rs) c = in_ranges c rs

match_chunk : List Token → List ℕ → Option (List ℕ)
unfolding fits
match_chunk [] name = some name
match_chunk (t ∷ ts) [] = none
match_chunk (t ∷ ts) (c ∷ name) = let rest = match_chunk ts name in if fits t c then rest else none

-- A last chunk has to use up the name.
fit : List Token → Bool → List ℕ → Option (List ℕ)
unfolding match_chunk
fit chunk last name = elim (match_chunk chunk name) [
  | none ↦ none
  | some [] ↦ some []
  | some (c ∷ rest) ↦ if last then none else some (c ∷ rest)
]

place : List Token → Bool → List ℕ → Option (List ℕ)
unfolding fit
place chunk last [] = fit chunk last []
place chunk last (c ∷ name) =
    let later = place chunk last name in
    elim (fit chunk last (c ∷ name)) [
      | some rest ↦ some rest
      | none ↦ if c == b'/' then none else later
    ]

no_slash : List ℕ → Bool
no_slash [] = true
no_slash (c ∷ name) = c != b'/' && no_slash name

match_stars : List (List Token) → List ℕ → Bool
unfolding place no_slash
match_stars [] [] = true
match_stars [] (c ∷ name) = false
match_stars ([] ∷ []) name = no_slash name
match_stars (chunk ∷ []) name = elim (place chunk true name) [ none ↦ false | some _ ↦ true ]
match_stars (chunk ∷ next ∷ more) name = elim (place chunk false name) [
  | none ↦ false
  | some rest ↦ match_stars (next ∷ more) rest
]

match_chunks : List Token × List (List Token) → List ℕ → Bool
unfolding match_stars match_chunk
match_chunks (lead, more) name = elim (match_chunk lead name) [
  | none ↦ false
  | some rest ↦ match_stars more rest
]

-- `path.Match(pattern, name)`; `none` is its error.
unfoldable pub match : String → String → Option Bool
unfolding items codes cut match_chunks ℕ_eq
match pattern name = do
  is ← items outside (codes pattern)
  some (match_chunks (cut is) (codes name))

star_in_the_middle : match "svc-*-[a-c0]?" "svc-billing-b7" ≡ some true
unfolding match
star_in_the_middle = refl

star_stops_at_slash : match "a*b" "a/b" ≡ some false
unfolding match
star_stops_at_slash = refl

open_class : match "a[b-" "" ≡ none
unfolding match
open_class = refl

whole_name : match "*-gitops" "x-gitops-y-gitops" ≡ some true
unfolding match
whole_name = refl
