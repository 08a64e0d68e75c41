-- ===== src/Scanner/Renames/Sound.antt =====
-- What `detectRenames` writes into each row.
use natsie.Base.{
  true, false, ◌||◌, List, [], ◌∷◌, Option, none, some, ◌==◌, ◌!=◌, string_eq, if◌then◌else◌, map,
  ◌≡◌, ◌≢◌, refl, sym, arith, All, In, ◌⊎◌, inl, inr, ◌≤◌, Bool-cases,
}
use natsie.Scanner.Classify.{Row, stale, status_eq}
use natsie.Scanner.Renames.{Active, key_of, lookup, note_all, annotate, detect_renames}
use natsie.Scanner.Renames.Latest.{Succeeds, IsLatest, lookup-note_all-IsLatest}

-- `R` holds between the items of the lists, place by place.
abbrev pub Pointwise : {A B : Type 0} → (A → B → Type 0) → List A → List B → Type 0
Pointwise R [] [] = Unit {0}
Pointwise R [] (_ ∷ _) = ⊥
Pointwise R (_ ∷ _) [] = ⊥
Pointwise R (a ∷ as') (b ∷ bs) = R a b × Pointwise R as' bs

abbrev pub IsRenamed : List Row → Row → Row → Type 0
IsRenamed rows r r' =
    (a : Row) × In a rows
    × Succeeds (key_of r) a
    × All (λ b. Succeeds (key_of r) b → b.last_ack ≤ a.last_ack) rows
    × (a.consumer ≢ r.consumer)
    × (r' ≡ record r { renamed_to = a.consumer })

abbrev pub HasNoSuccessor : List Row → Row → Type 0
HasNoSuccessor rows r =
    (r.status ≢ stale)
    ⊎ (r.filter_subject ≡ "")
    ⊎ All (λ b. ¬ Succeeds (key_of r) b) rows
    ⊎ ((a : Row) × In a rows
        × Succeeds (key_of r) a
        × All (λ b. Succeeds (key_of r) b → b.last_ack ≤ a.last_ack) rows
        × (a.consumer ≡ r.consumer))

-- The row before and after.
abbrev pub Annotated : List Row → Row → Row → Type 0
Annotated rows r r' =
    ((r.status ≡ stale) × (r.filter_subject ≢ "") × IsRenamed rows r r')
    ⊎ (HasNoSuccessor rows r × (r' ≡ r))

abbrev written : Row → Option Row → Row
written r none = r
written r (some t) = if t.consumer != r.consumer then record r { renamed_to = t.consumer } else r

written-Annotated :
    (rows : List Row) (r : Row) (o : Option Row)
    → r.status ≡ stale
    → r.filter_subject ≢ ""
    → IsLatest (key_of r) rows o
    → Annotated rows r (written r o)
written-Annotated rows r none s f h = inr (inr (inr (inl h)), refl)
written-Annotated rows r (some a) s f (i, h, l) = elim (string_eq.dec a.consumer r.consumer) [
  | yes e ↦ inr (inr (inr (inr (a, i, h, l, e))), ground arith)
  | no n ↦ inl (s, f, (a, i, h, l, n, ground arith))
]

annotate-written :
    (m : Active) (r : Row)
    → (r.status != stale || r.filter_subject == "") ≡ false
    → annotate m r ≡ written r (lookup (key_of r) m)
unfolding annotate
annotate-written m r h = rw h (ground arith)

annotate-Annotated : (rows : List Row) (r : Row) → Annotated rows r (annotate (note_all [] rows) r)
annotate-Annotated rows r = elim (Bool-cases (r.status != stale || r.filter_subject == "")) [
  | inl off ↦ inr (none_here off, unfold annotate in rw off)
  | inr on ↦ rw (annotate-written (note_all [] rows) r on) (
      written-Annotated rows r (lookup (key_of r) (note_all [] rows)) (ground arith) (ground arith)
        (lookup-note_all-IsLatest (key_of r) rows))
]
  where
    none_here : (r.status != stale || r.filter_subject == "") ≡ true → HasNoSuccessor rows r
    none_here off = elim (string_eq.dec r.filter_subject "") [
      | yes e ↦ inr (inl e)
      | no n ↦ inl (λ e. ground arith)
    ]

map-Pointwise :
    (f : Row → Row) (R : Row → Row → Type 0)
    → ((r : Row) → R r (f r))
    → (rows : List Row) → Pointwise R rows (map f rows)
map-Pointwise f R h [] = tt
map-Pointwise f R h (r ∷ rows) = (h r, map-Pointwise f R h rows)

-- With no pair in the map the second loop changes nothing.
annotate_nil : (r : Row) → annotate [] r ≡ r
unfolding annotate lookup
annotate_nil r = ground arith

map_same : (f : Row → Row) → ((r : Row) → f r ≡ r) → (rows : List Row) → map f rows ≡ rows
map_same f h [] = refl
map_same f h (r ∷ rows) = cc (h r, map_same f h rows)

detect_renames-map :
    (rows : List Row) → detect_renames rows ≡ map (annotate (note_all [] rows)) rows
unfolding detect_renames
detect_renames-map rows = go (note_all [] rows) refl
  where
    go :
        (m : Active)
        → note_all [] rows ≡ m
        → detect_renames rows ≡ map (annotate (note_all [] rows)) rows
    go [] e = rw (e, detect_renames) (sym (map_same (annotate []) annotate_nil rows))
    go (p ∷ m) e = rw (e, detect_renames)

-- `detectRenames` keeps the rows and their order and writes at most `RenamedTo`. The rows in question
-- for a row are the ACTIVE ones of its stream that filter the same subject, and of these the latest
-- acked. A row gets the name of one of the latest only if it is STALE, filters a subject and has
-- another name; a row is left as it is only if it is not STALE, filters no subject, there is no row in
-- question, or one of the latest has its name.
pub detect_renames-Annotated :
    (rows : List Row) → Pointwise (Annotated rows) rows (detect_renames rows)
detect_renames-Annotated rows =
    rw (detect_renames-map rows)
      (map-Pointwise (annotate (note_all [] rows)) (Annotated rows) (annotate-Annotated rows) rows)
