-- ===== src/Scanner/Owner/Latest.antt =====
-- Whom `Owner` names among the matches of `ResolveOwner`.
use natsie.Base.{
  ◌≤◌, String, Bool, true, false, List, [], ◌∷◌, Option, none, some, ◌==◌, ◌!=◌, string_eq, ℕ_eq,
  bool_eq, if◌then◌else◌, ◌≡◌, refl, arith, All, In, Bool-cases, Option-cases, subst, inl, inr,
}
use natsie.Go.Sort.{sort_slice, IsSorted, Follows, sort_slice-IsSorted}
use natsie.Go.Time.{Time, is_after}
use natsie.Base.Result.{Result}
use natsie.Natsctx.{Conn}
use natsie.Scanner.Api.{JetStream}
use natsie.Scanner.Classify.{active, Options, status_eq}
use natsie.Scanner.Owner.{
  OwnerMatch, no_manager, cancelled, less_match, resolve_owner, conns_matches, owner,
}

abbrev is_active : OwnerMatch → Bool
is_active m = m.status == active

-- What `sortOwnerMatches` looks at first: active matches lead, then the later ack.
abbrev leads : OwnerMatch → OwnerMatch → Bool
leads a b = if is_active a != is_active b then is_active a else is_after a.last_ack b.last_ack

less_match-Follows : Follows leads less_match
unfolding less_match
less_match-Follows = record {
  asym = λ a b h. ground arith;
  refines = λ a b h. ground arith;
  trans = λ a b c h k. ground arith;
}

-- The answer for a list of matches: none where no match is active, else an active match of the
-- list whose ack no other active match has later.
abbrev pub IsOwnerOf : List OwnerMatch → Option OwnerMatch → Type 0
IsOwnerOf ms none = All (λ m. is_active m ≡ false) ms
IsOwnerOf ms (some o) =
    In o ms × (is_active o ≡ true) × All (λ m. is_active m ≡ true → m.last_ack ≤ o.last_ack) ms

after_lead :
    (o : OwnerMatch) (ms : List OwnerMatch)
    → is_active o ≡ true
    → All (λ m. leads m o ≡ false) ms
    → All (λ m. is_active m ≡ true → m.last_ack ≤ o.last_ack) ms
after_lead o [] act h = tt
after_lead o (m ∷ ms) act h = (λ a. ground (arith, h.0), after_lead o ms act h.1)

owner-IsOwnerOf : (ms : List OwnerMatch) → IsSorted leads less_match ms → IsOwnerOf ms (owner ms)
unfolding owner
owner-IsOwnerOf [] s = tt
owner-IsOwnerOf (m ∷ ms) s = elim (Bool-cases (is_active m)) [
  | inl e ↦ rw e (inl refl, e, ((λ a. omega arith), after_lead m ms e s.0))
  | inr e ↦ rw e (shift e (owner ms) (owner-IsOwnerOf ms s.1))
]
  where
    shift : is_active m ≡ false → (r : Option OwnerMatch) → IsOwnerOf ms r → IsOwnerOf (m ∷ ms) r
    shift e none h = (e, h)
    shift e (some o) (i, a, h) = (inr i, a, ((λ b. absurd (ground arith)), h))

-- When `ResolveOwner` is not cancelled, `Owner` names a match of its list that is active and that
-- no other active match has acked after; it names none only where no match is active.
pub resolve_owner-IsOwnerOf :
    (conns : List (Conn (Result String JetStream))) (now : Time) (opts : Options)
    (ctx : String → String → Option String) (subject : String) (ms : List OwnerMatch)
    → resolve_owner conns now opts ctx subject ≡ (ms, none)
    → IsOwnerOf ms (owner ms)
unfolding resolve_owner
resolve_owner-IsOwnerOf conns now opts ctx subject ms h =
    elim (Option-cases (conns_matches conns now opts ctx subject).1) [
      | inl e ↦ owner-IsOwnerOf ms (
          subst (IsSorted leads less_match) (same e)
            (sort_slice-IsSorted leads less_match less_match-Follows _))
      | inr (no_manager c, e) ↦ absurd (ground (arith, e, h))
      | inr (cancelled c, e) ↦ absurd (ground (arith, e, h))
    ]
  where
    same :
        (conns_matches conns now opts ctx subject).1 ≡ none
        → sort_slice less_match (conns_matches conns now opts ctx subject).0 ≡ ms
    same e = ground arith
