-- ===== src/Owners/Routing.antt =====
-- Where `NewRouter`, `Match` and `Group` lead an entry.
use natsie.Base.{
  ℕ, ◌+◌, String, Bool, false, ◌||◌, List, [], ◌∷◌, ◌++◌, ◌==◌, string_eq, contains, if◌then◌else◌,
  keep, ◌≡◌, ◌≢◌, ◌↔◌, refl, sym, ap, subst, arith, All, inl, inr, ◌⊎◌, ◌∙◌, In, true, ◌<>◌, ◌&&◌,
  ◌!=◌, Bool-cases, &&-eq-true,
}
use natsie.Base.Result.{ok, Result-cases}
use natsie.Go.Strings.{has_prefix, has_prefix-split, has_prefix-append}
use natsie.Manifest.{Entry}
use natsie.Owners.{
  OwnerConfig, Owner, new_router_from, new_router, any_prefix, match, Groups, append_to, group_from,
  group, group_of,
}

-- The consumer's name begins with a prefix of the list that is not empty.
abbrev pub HasPrefix : String → List String → Type 0
HasPrefix consumer prefixes =
    (p : String) × (rest : String) × In p prefixes × (p ≢ "") × (consumer ≡ p <> rest)

-- What `Match` asks of an owner.
abbrev claims : Owner → Entry → Bool
claims o e = contains o.streams e.stream || any_prefix e.consumer o.consumer_prefix

-- The owner has the stream of the entry, or a prefix of its consumer.
abbrev pub Claims : Owner → Entry → Type 0
Claims o e = In e.stream o.streams ⊎ HasPrefix e.consumer o.consumer_prefix

any_prefix_iff :
    (consumer : String) (ps : List String) → (any_prefix consumer ps ≡ true) ↔ HasPrefix consumer ps
unfolding any_prefix
any_prefix_iff consumer ps = (found ps, listed ps)
  where
    found : (ps : List String) → any_prefix consumer ps ≡ true → HasPrefix consumer ps
    found [] h = absurd cc
    found (p ∷ ps) h = elim (Bool-cases (p != "" && has_prefix consumer p)) [
      | inl here ↦
          let (named, begins) = &&-eq-true (p != "") (has_prefix consumer p) here in
          let (rest, split) = has_prefix-split consumer p begins in
          (p, rest, inl refl, ground arith, split)
      | inr not_here ↦
          let (q, rest, i, named, split) = found ps (ground arith) in (q, rest, inr i, named, split)
    ]

    listed : (ps : List String) → HasPrefix consumer ps → any_prefix consumer ps ≡ true
    listed [] (p, rest, i, named, split) = absurd i
    listed (p ∷ ps) (q, rest, inl i, named, split) =
        let begins : has_prefix consumer p ≡ true =
          rw (split ∙ ap (λ k. k <> rest) i) (has_prefix-append p rest) in
        ground (arith, begins)
    listed (p ∷ ps) (q, rest, inr i, named, split) =
        ground (arith, listed ps (q, rest, i, named, split))

contains_iff : (xs : List String) (a : String) → (contains xs a ≡ true) ↔ In a xs
unfolding contains
contains_iff xs a = (found xs, listed xs)
  where
    found : (xs : List String) → contains xs a ≡ true → In a xs
    found [] h = absurd cc
    found (x ∷ xs) h = elim (string_eq.dec x a) [
      | yes e ↦ inl (sym e)
      | no n ↦ inr (found xs (ground arith))
    ]

    listed : (xs : List String) → In a xs → contains xs a ≡ true
    listed [] h = absurd h
    listed (x ∷ xs) (inl e) = ground (arith, e)
    listed (x ∷ xs) (inr h) = ground (arith, listed xs h)

claims-Claims : (o : Owner) (e : Entry) → (claims o e ≡ true) ↔ Claims o e
claims-Claims o e = (found, listed)
  where
    found : claims o e ≡ true → Claims o e
    found h = elim (Bool-cases (contains o.streams e.stream)) [
      | inl s ↦ inl ((contains_iff o.streams e.stream).0 s)
      | inr s ↦ inr ((any_prefix_iff e.consumer o.consumer_prefix).0 (ground arith))
    ]

    listed : Claims o e → claims o e ≡ true
    listed (inl s) = ground (arith, (contains_iff o.streams e.stream).1 s)
    listed (inr p) = ground (arith, (any_prefix_iff e.consumer o.consumer_prefix).1 p)

abbrev IsNamed : Owner → Type 0
IsNamed o = o.name ≢ ""

new_router_from-IsNamed :
    (i : ℕ) (cfgs : List OwnerConfig) {owners : List Owner}
    → new_router_from i cfgs ≡ ok owners
    → All IsNamed owners
unfolding new_router_from
new_router_from-IsNamed i [] {owners = owners} e = subst (All IsNamed) none_left tt
  where
    none_left : [] ≡ owners
    none_left = cc
new_router_from-IsNamed i (c ∷ cfgs) {owners = owners} e =
    elim (Result-cases (new_router_from (i + 1) cfgs)) [
      | inl (rest, f) ↦
          subst (All IsNamed) (split rest f).1
            ((split rest f).0, new_router_from-IsNamed (i + 1) cfgs f)
      | inr (x, f) ↦ absurd (ground arith)
    ]
  where
    split :
        (rest : List Owner)
        → new_router_from (i + 1) cfgs ≡ ok rest
        → (c.name ≢ "")
          × ((record { name = c.name; streams = c.streams; consumer_prefix = c.consumer_prefix }
                ∷ rest)
              ≡ owners)
    split rest f = ground (arith, f)

-- The name is that of the first owner of the list that claims the entry, or empty, if none does.
abbrev pub IsFirstHit : Entry → String → List Owner → Type 0
IsFirstHit e name owners =
    ((name ≡ "") × All (λ o. ¬ Claims o e) owners)
    ⊎ ((before : List Owner) × (o : Owner) × (after : List Owner) × (owners ≡ before ++ (o ∷ after))
        × All (λ b. ¬ Claims b e) before
        × Claims o e
        × (name ≡ o.name)
        × (name ≢ ""))

named-IsFirstHit :
    (owners : List Owner) (e : Entry) → All IsNamed owners → IsFirstHit e (match owners e) owners
unfolding match
named-IsFirstHit [] e h = inl (refl, tt)
named-IsFirstHit (o ∷ owners) e (named, h) = elim (Bool-cases (claims o e)) [
  | inl c ↦
      let hit : match (o ∷ owners) e ≡ o.name = ground (arith, c) in
      inr ([], o, owners, refl, tt, (claims-Claims o e).0 c, hit, λ z. named (sym hit ∙ z))
  | inr c ↦
      let other : ¬ Claims o e = λ d. clash c ((claims-Claims o e).1 d) in
      let pass : match (o ∷ owners) e ≡ match owners e = ground (arith, c) in
      elim (named-IsFirstHit owners e h) [
        | inl (none, rest) ↦ inl (pass ∙ none, (other, rest))
        | inr (before, b, after, split, rest, d, hit, full) ↦ inr (
          o ∷ before,
          b,
          after,
          ap (λ os. o ∷ os) split,
          (other, rest),
          d,
          pass ∙ hit,
          λ z. full (sym pass ∙ z),
        )
      ]
]
  where
    clash : {b : Bool} → b ≡ false → b ≡ true → ⊥
    clash f t = cc

-- With a router that `NewRouter` accepted, `Match` gives an entry the name of the first owner that
-- claims it, which is not empty, and the empty name if no owner does. An owner claims an entry if it
-- lists the entry's stream, or a prefix that is not empty and begins the consumer's name.
pub match-IsFirstHit :
    (cfgs : List OwnerConfig) (e : Entry) {owners : List Owner}
    → new_router cfgs ≡ ok owners
    → IsFirstHit e (match owners e) owners
unfolding new_router
match-IsFirstHit cfgs e {owners = owners} h =
    named-IsFirstHit owners e (new_router_from-IsNamed 0 cfgs h)

group_of-append_to :
    (n o : String) (e : Entry) (g : Groups)
    → group_of n (append_to o e g) ≡ (if o == n then group_of n g ++ (e ∷ []) else group_of n g)
unfolding group_of append_to
group_of-append_to n o e [] = ground arith
group_of-append_to n o e ((p, es) ∷ g) = ground (arith, group_of-append_to n o e g)

append-cons :
    (xs : List Entry) (e : Entry) (ys : List Entry) → (xs ++ (e ∷ [])) ++ ys ≡ xs ++ (e ∷ ys)
append-cons [] e ys = refl
append-cons (x ∷ xs) e ys = ap (λ k. x ∷ k) (append-cons xs e ys)

append-nil : (xs : List Entry) → xs ++ [] ≡ xs
append-nil [] = refl
append-nil (x ∷ xs) = ap (λ k. x ∷ k) (append-nil xs)

group_of-group_from :
    (owners : List Owner) (n : String) (g : Groups) (es : List Entry)
    → group_of n (group_from owners g es) ≡ group_of n g ++ keep (λ e. match owners e == n) es
unfolding group_from
group_of-group_from owners n g [] = sym (append-nil (group_of n g))
group_of-group_from owners n g (e ∷ es) = ground (
  arith,
  group_of-group_from owners n (append_to (match owners e) e g) es,
  group_of-append_to n (match owners e) e g,
  append-cons (group_of n g) e (keep (λ x. match owners x == n) es),
)

-- `Group` gives each name the entries that `Match` gives it, all of them and in their order, and
-- no other entry.
pub group_of-group :
    (owners : List Owner) (n : String) (es : List Entry)
    → group_of n (group owners es) ≡ keep (λ e. match owners e == n) es
unfolding group group_of
group_of-group owners n es = group_of-group_from owners n [] es
