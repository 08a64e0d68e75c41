-- ===== src/Owners.antt =====
-- internal/owners/owners.go: which team a manifest entry is announced to.
pub mod Routing
use natsie.Base.{
  ℕ, ◌+◌, String, Bool, true, false, ◌&&◌, ◌||◌, List, [], ◌∷◌, ◌++◌, ◌==◌, ◌!=◌, Eq, string_eq,
  contains, if◌then◌else◌, map,
}
use natsie.Base.Result.{Result, ok, err}
use natsie.Go.Strings.{has_prefix}
use natsie.Manifest.{Entry}

-- `config.Owner`
pub record OwnerConfig : Type 0 where
  pub name : String
  pub notify : List String
  pub streams : List String
  pub consumer_prefix : List String

-- `Owner`
pub record Owner : Type 0 where
  pub name : String
  pub streams : List String
  pub consumer_prefix : List String

pub data Error : Type 0 where
  name_required : ℕ → Error
  claims_nothing : String → Error

abbrev is_empty : List String → Bool
is_empty [] = true
is_empty (s ∷ ss) = false

-- The loop of `NewRouter` from an index on; the router is its list of owners.
unfoldable pub new_router_from : ℕ → List OwnerConfig → Result Error (List Owner)
new_router_from i [] = ok []
new_router_from i (c ∷ cfgs) =
    let rest = new_router_from (i + 1) cfgs in
    if c.name == ""
    then err (name_required i)
    else if is_empty c.streams && is_empty c.consumer_prefix
    then err (claims_nothing c.name)
    else elim rest [
      | err e ↦ err e
      | ok owners ↦ ok (
          record { name = c.name; streams = c.streams; consumer_prefix = c.consumer_prefix }
          ∷ owners)
    ]

-- `NewRouter`
unfoldable pub new_router : List OwnerConfig → Result Error (List Owner)
unfolding new_router_from
new_router cfgs = new_router_from 0 cfgs

-- The inner loop of `Match`.
unfoldable pub any_prefix : String → List String → Bool
any_prefix consumer [] = false
any_prefix consumer (p ∷ ps) = (p != "" && has_prefix consumer p) || any_prefix consumer ps

-- `(*Router).Match`
unfoldable pub match : List Owner → Entry → String
unfolding any_prefix
match [] e = ""
match (o ∷ owners) e =
    let rest = match owners e in
    if contains o.streams e.stream
    then o.name
    else if any_prefix e.consumer o.consumer_prefix
    then o.name
    else rest

-- The map of `Group`, with a pair for each key.
abbrev pub Groups : Type 0
Groups = List (String × List Entry)

-- `out[owner] = append(out[owner], e)`
unfoldable pub append_to : String → Entry → Groups → Groups
append_to owner e [] = (owner, e ∷ []) ∷ []
append_to owner e ((o, es) ∷ groups) =
    let later = (o, es) ∷ append_to owner e groups in
    if o == owner then (o, es ++ (e ∷ [])) ∷ groups else later

unfoldable pub group_from : List Owner → Groups → List Entry → Groups
unfolding match append_to
group_from owners out [] = out
group_from owners out (e ∷ es) = group_from owners (append_to (match owners e) e out) es

-- `(*Router).Group`
unfoldable pub group : List Owner → List Entry → Groups
unfolding group_from
group owners entries = group_from owners [] entries

-- What the map has under a key; nothing is the nil slice.
unfoldable pub group_of : String → Groups → List Entry
group_of owner [] = []
group_of owner ((o, es) ∷ groups) = if o == owner then es else group_of owner groups

-- `(*Router).Names`
unfoldable pub names : List Owner → List String
names = map λ o. o.name
