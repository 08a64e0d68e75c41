-- ===== src/Protect/Rules.antt =====
-- When `Reason` is empty, and what `New` guarantees of the rules that it accepts.
use natsie.Base.{
  ℕ, ◌+◌, String, true, false, ◌&&◌, List, [], ◌∷◌, ◌++◌, none, some, ◌==◌, string_eq, ◌≡◌, ◌≢◌,
  ◌↔◌, ◌⊎◌, inl, inr, refl, arith, cons-ne-nil, Option-cases, Bool-cases, All, In,
}
use natsie.Base.Result.{Result, ok, err, >>-eq-ok}
use natsie.Go.Path
use natsie.Go.Strings.{trim_space}
use natsie.Protect.{
  default_metadata_key, Pattern, Config, Protector, Metadata, lookup, add_keys, check_glob, Error,
  check_pattern, check_patterns, new, effective_keys, opts_out, key_reason, keys_reason,
  pattern_matches, patterns_reason, reason, protected,
}

-- The metadata has the key, with a value that does not opt out.
abbrev pub Marks : Metadata → String → Type 0
Marks meta k = (v : String) × (lookup k meta ≡ some v) × (opts_out v ≡ false)

abbrev pub IsManaged : Protector → String → String → Metadata → Type 0
IsManaged p stream consumer meta =
    ((k : String) × In k (effective_keys p.keys) × Marks meta k)
    ⊎ ((pat : Pattern) × In pat p.patterns × (pattern_matches stream consumer pat ≡ true))

module _ (meta : Metadata) where
  key_reason-Marks : (k : String) → Marks meta k → key_reason meta k ≢ none
  unfolding key_reason
  key_reason-Marks k (v, e, h) n = ground (arith)

  Marks-key_reason :
      (k : String) {r : String} → key_reason meta k ≡ some r → Marks meta k × (r ≢ "")
  unfolding key_reason
  Marks-key_reason k e = elim (Option-cases (lookup k meta)) [
    | inl n ↦ absurd (ground arith)
    | inr (v, f) ↦ elim (Bool-cases (opts_out v)) [
      | inl g ↦ absurd (ground arith)
      | inr g ↦ ((v, f, g), λ z. cc)
    ]
  ]

  keys_reason-Marks :
      (ks : List String) (k : String) → In k ks → Marks meta k → keys_reason meta ks ≢ none
  unfolding keys_reason
  keys_reason-Marks [] k m h e = m
  keys_reason-Marks (j ∷ ks) k (inl i) h e = key_reason-Marks k h (rw i (ground arith))
  keys_reason-Marks (j ∷ ks) k (inr i) h e = keys_reason-Marks ks k i h (ground arith)

  Marks-keys_reason :
      (ks : List String) {r : String}
      → keys_reason meta ks ≡ some r
      → ((k : String) × In k ks × Marks meta k) × (r ≢ "")
  unfolding keys_reason
  Marks-keys_reason [] e = absurd (ground arith)
  Marks-keys_reason (j ∷ ks) e = elim (Option-cases (key_reason meta j)) [
    | inl n ↦ let ((k, i, h), d) = Marks-keys_reason ks (ground arith) in ((k, inr i, h), d)
    | inr (r', f) ↦ let (h, d) = Marks-key_reason j f in ((j, inl refl, h), ground (arith, d))
  ]

module _ (stream consumer : String) where
  patterns_reason-matches :
      (ps : List Pattern) (pat : Pattern)
      → In pat ps
      → pattern_matches stream consumer pat ≡ true
      → patterns_reason stream consumer ps ≢ ""
  unfolding patterns_reason
  patterns_reason-matches [] pat m h e = m
  patterns_reason-matches (q ∷ ps) pat (inl i) h e =
      let hit : pattern_matches stream consumer q ≡ true = rw (← i) h in
      cons-ne-nil _ _ (rw hit at e)
  patterns_reason-matches (q ∷ ps) pat (inr i) h e =
      elim (Bool-cases (pattern_matches stream consumer q)) [
        | inl hit ↦ cons-ne-nil _ _ (rw hit at e)
        | inr miss ↦ patterns_reason-matches ps pat i h (rw miss at e)
      ]

  matches-patterns_reason :
      (ps : List Pattern)
      → patterns_reason stream consumer ps ≢ ""
      → (pat : Pattern) × In pat ps × (pattern_matches stream consumer pat ≡ true)
  unfolding patterns_reason
  matches-patterns_reason [] d = absurd (d refl)
  matches-patterns_reason (q ∷ ps) d = elim (Bool-cases (pattern_matches stream consumer q)) [
    | inl h ↦ (q, inl refl, h)
    | inr h ↦ let (pat, i, g) = matches-patterns_reason ps (rw h at d) in (pat, inr i, g)
  ]

pub reason_iff :
    (p : Protector) (stream consumer : String) (meta : Metadata)
    → (reason (some p) stream consumer meta ≢ "") ↔ IsManaged p stream consumer meta
unfolding reason
reason_iff p stream consumer meta = (covered, managed)
  where
    covered : reason (some p) stream consumer meta ≢ "" → IsManaged p stream consumer meta
    covered d = elim (Option-cases (keys_reason meta (effective_keys p.keys))) [
      | inl n ↦ inr (matches-patterns_reason stream consumer p.patterns (rw (n, reason) at d))
      | inr (r, e) ↦ inl (Marks-keys_reason meta (effective_keys p.keys) e).0
    ]

    managed : IsManaged p stream consumer meta → reason (some p) stream consumer meta ≢ ""
    managed h z = elim (Option-cases (keys_reason meta (effective_keys p.keys))) [
      | inl n ↦ elim h [
        | inl (k, i, m) ↦ keys_reason-Marks meta (effective_keys p.keys) k i m n
        | inr (pat, i, m) ↦
            patterns_reason-matches stream consumer p.patterns pat i m (rw (n, reason) at z)
      ]
      | inr (r, e) ↦ (Marks-keys_reason meta (effective_keys p.keys) e).1 (rw (e, reason) at z)
    ]

-- `Protected` says the same as a Boolean.
pub protected_iff :
    (p : Protector) (stream consumer : String) (meta : Metadata)
    → (protected (some p) stream consumer meta ≡ true) ↔ IsManaged p stream consumer meta
unfolding protected
protected_iff p stream consumer meta = (
  λ h. (reason_iff p stream consumer meta).0 (λ e. ground arith),
  λ h. ground (arith, (reason_iff p stream consumer meta).1 h),
)

contains-append_left : (xs ys : List String) (k : String) → In k xs → In k (xs ++ ys)
contains-append_left [] ys k m = absurd m
contains-append_left (x ∷ xs) ys k (inl e) = inl e
contains-append_left (x ∷ xs) ys k (inr m) = inr (contains-append_left xs ys k m)

add_keys-keeps : (raws keys : List String) (k : String) → In k keys → In k (add_keys keys raws)
unfolding add_keys
add_keys-keeps [] keys k m = m
add_keys-keeps (raw ∷ raws) keys k m =
    add_keys-keeps raws _ k (grind (arith, contains-append_left keys (trim_space raw ∷ []) k m))

effective-In : (ks : List String) (k : String) → In k ks → In k (effective_keys ks)
unfolding effective_keys
effective-In [] k m = absurd m
effective-In (x ∷ xs) k m = m

new-keys :
    (cfg : Config) {p : Protector}
    → new cfg ≡ ok p
    → (p.keys ≡ add_keys (default_metadata_key ∷ []) cfg.metadata_keys)
      × (p.patterns ≡ cfg.patterns)
unfolding new
new-keys cfg e = ground arith

-- A protector that `New` returns protects every consumer whose metadata has natsie.io/managed with
-- a value that does not opt out, whatever the configured keys and patterns are.
pub reason-new_default :
    (cfg : Config) {p : Protector} (stream consumer v : String) (meta : Metadata)
    → new cfg ≡ ok p
    → lookup default_metadata_key meta ≡ some v
    → opts_out v ≡ false
    → reason (some p) stream consumer meta ≢ ""
reason-new_default cfg {p} stream consumer v meta e f g = (reason_iff p stream consumer meta).1 (
    inl (
      default_metadata_key,
      effective-In p.keys default_metadata_key (
          rw ((new-keys cfg e).0) (
            add_keys-keeps cfg.metadata_keys (default_metadata_key ∷ []) default_metadata_key
              (inl refl))),
      (v, f, g),
    ))

-- The pattern names something, and both of its globs are well formed.
abbrev pub IsProper : Pattern → Type 0
IsProper p =
    ((p.stream ≢ "") ⊎ (p.consumer ≢ ""))
    × ((p.stream ≡ "") ⊎ (Path.match p.stream "" ≢ none))
    × ((p.consumer ≡ "") ⊎ (Path.match p.consumer "" ≢ none))

check_glob-ok : (i : ℕ) (g : String) → check_glob i g ≡ ok tt → (g ≡ "") ⊎ (Path.match g "" ≢ none)
check_glob-ok i g e = elim (string_eq.dec g "") [ yes z ↦ inl z | no n ↦ inr (λ z. ground arith) ]

ok-check_glob : (i : ℕ) (g : String) → (g ≡ "") ⊎ (Path.match g "" ≢ none) → check_glob i g ≡ ok tt
ok-check_glob i g h = ground arith

check_pattern-IsProper : (i : ℕ) (p : Pattern) → check_pattern i p ≡ ok tt → IsProper p
check_pattern-IsProper i p e = elim (Bool-cases (p.stream == "" && p.consumer == "")) [
  | inl blank ↦ absurd (ground arith)
  | inr named ↦
      let (g, h) = >>-eq-ok (check_glob i p.stream) (check_glob i p.consumer) (rw named at e) in
      (named_by named, check_glob-ok i p.stream g, check_glob-ok i p.consumer h)
]
  where
    named_by : (p.stream == "" && p.consumer == "") ≡ false → (p.stream ≢ "") ⊎ (p.consumer ≢ "")
    named_by n = elim (string_eq.dec p.stream "") [ yes s ↦ inr (λ c. ground arith) | no s ↦ inl s ]

check_patterns-IsProper :
    (i : ℕ) (ps : List Pattern) → check_patterns i ps ≡ ok tt → All IsProper ps
unfolding check_patterns
check_patterns-IsProper i [] e = tt
check_patterns-IsProper i (p ∷ ps) e =
    let (g, h) = >>-eq-ok (check_pattern i p) (check_patterns (i + 1) ps) e in
    (check_pattern-IsProper i p g, check_patterns-IsProper (i + 1) ps h)

IsProper-check_patterns :
    (i : ℕ) (ps : List Pattern) → All IsProper ps → check_patterns i ps ≡ ok tt
unfolding check_patterns
IsProper-check_patterns i [] h = refl
IsProper-check_patterns i (p ∷ ps) h = ground (
  arith,
  IsProper-check_patterns (i + 1) ps,
  ok-check_glob i p.stream,
  ok-check_glob i p.consumer,
)

-- What `New` may return: a protector with the configured patterns, if all of these are proper, and an
-- error, if one of them is not.
abbrev pub IsVerdict : Config → Result Error Protector → Type 0
IsVerdict cfg (ok p) = All IsProper cfg.patterns × (p.patterns ≡ cfg.patterns)
IsVerdict cfg (err e) = ¬ All IsProper cfg.patterns

-- `New` returns a protector with all the configured patterns, as they are, where every one of them
-- names a stream or a consumer and has well-formed globs; where one of them does not, it fails.
pub new-IsVerdict : (cfg : Config) → IsVerdict cfg (new cfg)
unfolding new
new-IsVerdict cfg = by_check (check_patterns 0 cfg.patterns) refl
  where
    by_check :
        (r : Result Error (Unit {0})) → check_patterns 0 cfg.patterns ≡ r → IsVerdict cfg (new cfg)
    by_check (ok _) c = rw (c, new) (check_patterns-IsProper 0 cfg.patterns c, refl)
    by_check (err e) c = rw (c, new) refused
      where
        refused : ¬ All IsProper cfg.patterns
        refused proper =
            let fine : check_patterns 0 cfg.patterns ≡ ok tt =
              IsProper-check_patterns 0 cfg.patterns proper in
            cc
