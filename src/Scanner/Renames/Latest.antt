-- ===== src/Scanner/Renames/Latest.antt =====
-- The map of `detectRenames` holds, for each stream and subject, the latest of the active rows.
use natsie.Base.{
  true, ◌&&◌, List, [], ◌∷◌, Option, none, some, ◌==◌, string_eq, if◌then◌else◌, ◌≡◌, refl, sym, ap,
  ◌∙◌, arith, All, In, ◌⊎◌, inl, inr, ◌≤◌, Bool-cases, &&-eq-true, ==→eq, subst,
}
use natsie.Go.Time.{is_after}
use natsie.Scanner.Classify.{Row, status_eq}
use natsie.Scanner.Renames.{
  Key, Active, key_of, same_key, lookup, insert, is_successor, note, note_all,
}

pub same_key_iff : (a b : Key) → same_key a b ≡ true → a ≡ b
same_key_iff a b h =
    let (s, u) = &&-eq-true (a.stream == b.stream) (a.subject == b.subject) h in
    ground (arith, ==→eq a.stream b.stream s, ==→eq a.subject b.subject u)

lookup-insert :
    (j k : Key) (r : Row) (m : Active)
    → lookup j (insert k r m) ≡ (if same_key k j then some r else lookup j m)
unfolding lookup insert
lookup-insert j k r [] = refl
lookup-insert j k r ((i, x) ∷ m) = elim (Bool-cases (same_key i k)) [
  | inl e ↦ let same : i ≡ k = same_key_iff i k e in rw (e) (ground (arith))
  | inr n ↦ ground (arith, lookup-insert j k r m)
]

-- The candidate for key `k` after one more row.
abbrev better : Key → Option Row → Row → Option Row
better k o r =
    if is_successor r && same_key (key_of r) k
    then elim o [
      | none ↦ some r
      | some c ↦ if is_after r.last_ack c.last_ack then some r else some c
    ]
    else o

best : Key → Option Row → List Row → Option Row
best k o [] = o
best k o (r ∷ rows) = best k (better k o r) rows

lookup-note : (k : Key) (m : Active) (r : Row) → lookup k (note m r) ≡ better k (lookup k m) r
unfolding note
lookup-note k m r = elim (Bool-cases (same_key (key_of r) k)) [
  | inl same ↦
      ground (
        arith,
        lookup-insert k (key_of r) r m,
        ap (λ j. lookup j m) (same_key_iff (key_of r) k same),
      )
  | inr differ ↦ ground (arith, lookup-insert k (key_of r) r m)
]

lookup-note_all :
    (k : Key) (m : Active) (rows : List Row) → lookup k (note_all m rows) ≡ best k (lookup k m) rows
unfolding note_all best
lookup-note_all k m [] = refl
lookup-note_all k m (r ∷ rows) =
    lookup-note_all k (note m r) rows ∙ ap (λ o. best k o rows) (lookup-note k m r)

-- The row is a successor for the key.
abbrev pub Succeeds : Key → Row → Type 0
Succeeds k r = (is_successor r ≡ true) × (key_of r ≡ k)

abbrev NoLater : Key → Row → List Row → Type 0
NoLater k a = All (λ b. Succeeds k b → b.last_ack ≤ a.last_ack)

abbrev AtMost : Option Row → Row → Type 0
AtMost none a = Unit {0}
AtMost (some c) a = c.last_ack ≤ a.last_ack

-- From the candidate `o` and the rows, the latest is chosen.
abbrev Chosen : Key → Option Row → List Row → Option Row → Type 0
Chosen k o rows none = (o ≡ none) × All (λ b. ¬ Succeeds k b) rows
Chosen k o rows (some a) =
    ((o ≡ some a) ⊎ (In a rows × Succeeds k a)) × NoLater k a rows × AtMost o a

same_key_refl : (k j : Key) → k ≡ j → same_key k j ≡ true
same_key_refl k j e = ground arith

better-Succeeds :
    (k : Key) (o : Option Row) (r : Row)
    → ((o ≡ none) × (better k o r ≡ some r) × Succeeds k r)
      ⊎ ((better k o r ≡ o)
          × ((¬ Succeeds k r) ⊎ ((c : Row) × (o ≡ some c) × (r.last_ack ≤ c.last_ack))))
      ⊎ ((c : Row) × (o ≡ some c)
          × (better k o r ≡ some r)
          × Succeeds k r
          × (c.last_ack ≤ r.last_ack))
better-Succeeds k none r = elim (Bool-cases (is_successor r && same_key (key_of r) k)) [
  | inl h ↦
      let (s, e) = &&-eq-true (is_successor r) (same_key (key_of r) k) h in
      inl (refl, rw h, (s, same_key_iff (key_of r) k e))
  | inr h ↦ inr (inl (rw h, inl (λ (s, e). ground (arith, same_key_refl (key_of r) k e))))
]
better-Succeeds k (some c) r = elim (Bool-cases (is_successor r && same_key (key_of r) k)) [
  | inl h ↦
      let (s, e) = &&-eq-true (is_successor r) (same_key (key_of r) k) h in
      elim (Bool-cases (is_after r.last_ack c.last_ack)) [
        | inl after ↦
            inr (inr (c, refl, rw (h, after), (s, same_key_iff (key_of r) k e), ground arith))
        | inr before ↦ inr (inl (rw (h, before), inr (c, refl, ground arith)))
      ]
  | inr h ↦ inr (inl (rw h, inl (λ (s, e). ground (arith, same_key_refl (key_of r) k e))))
]

Chosen-cons :
    (k : Key) (o : Option Row) (r : Row) (rows : List Row) (x : Option Row)
    → Chosen k (better k o r) rows x
    → Chosen k o (r ∷ rows) x
Chosen-cons k o r rows none (e, h) = elim (better-Succeeds k o r) [
  | inl (n, b, s) ↦ absurd (cc)
  | inr (inl (b, inl u)) ↦ (sym b ∙ e, (u, h))
  | inr (inl (b, inr (c, f, l))) ↦ absurd (cc)
  | inr (inr (c, f, b, s, l)) ↦ absurd (cc)
]
Chosen-cons k o r rows (some a) (from, later, most) = elim (better-Succeeds k o r) [
  | inl (n, b, s) ↦
      let at : r.last_ack ≤ a.last_ack = rw b at most in
      (origin (chosen b s), ((λ _. at), later), rw n tt)
  | inr (inl (b, inl u)) ↦
      (origin (λ e. inl (sym b ∙ e)), ((λ s. absurd (u s)), later), rw b at most)
  | inr (inl (b, inr (c, f, l))) ↦
      let at : c.last_ack ≤ a.last_ack = rw (b, f) at most in
      (origin (λ e. inl (sym b ∙ e)), ((λ _. omega arith), later), rw b at most)
  | inr (inr (c, f, b, s, l)) ↦
      let at : r.last_ack ≤ a.last_ack = rw b at most in
      (origin (chosen b s), ((λ _. at), later), rw f (omega arith))
]
  where
    origin :
        (better k o r ≡ some a → (o ≡ some a) ⊎ (In a (r ∷ rows) × Succeeds k a))
        → (o ≡ some a) ⊎ (In a (r ∷ rows) × Succeeds k a)
    origin f = elim from [ inl e ↦ f e | inr (i, s) ↦ inr (inr i, s) ]

    chosen :
        better k o r ≡ some r
        → Succeeds k r
        → better k o r ≡ some a
        → (o ≡ some a) ⊎ (In a (r ∷ rows) × Succeeds k a)
    chosen b s e = let same : a ≡ r = cc in inr (inl same, subst (Succeeds k) (sym same) s)

best-Chosen : (k : Key) (o : Option Row) (rows : List Row) → Chosen k o rows (best k o rows)
unfolding best
best-Chosen k none [] = (refl, tt)
best-Chosen k (some c) [] = (inl refl, tt, omega arith)
best-Chosen k o (r ∷ rows) = Chosen-cons k o r rows _ (best-Chosen k (better k o r) rows)

-- The row `a` is the latest of the rows that succeed for key `k`; or there is none.
abbrev pub IsLatest : Key → List Row → Option Row → Type 0
IsLatest k rows none = All (λ b. ¬ Succeeds k b) rows
IsLatest k rows (some a) =
    In a rows × Succeeds k a × All (λ b. Succeeds k b → b.last_ack ≤ a.last_ack) rows

Chosen-IsLatest :
    (k : Key) (rows : List Row) (o : Option Row) → Chosen k none rows o → IsLatest k rows o
Chosen-IsLatest k rows none (_, h) = h
Chosen-IsLatest k rows (some a) (inl e, _, _) = absurd cc
Chosen-IsLatest k rows (some a) (inr (i, s), l, _) = (i, s, l)

pub lookup-note_all-IsLatest :
    (k : Key) (rows : List Row) → IsLatest k rows (lookup k (note_all [] rows))
unfolding lookup
lookup-note_all-IsLatest k rows =
    rw (lookup-note_all k [] rows) (Chosen-IsLatest k rows _ (best-Chosen k none rows))
