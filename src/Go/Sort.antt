-- ===== src/Go/Sort.antt =====
-- `sort.Slice` and `sort.Strings`: a sorted rearrangement. Where `less` orders any two different
-- items, as the program's comparisons do, there is one such list, whatever the algorithm.
use mathlib.Core.List.{Perm}
use mathlib.Core.List.Perm
use natsie.Base.{
  ℕ, ◌+◌, sum_of, arith, Bool, true, false, List, [], ◌∷◌, if◌then◌else◌, ◌≡◌, refl, subst, In, All,
  Bool-cases, inl, inr,
}

module _ {ℓ} {A : Type ℓ} (less : A → A → Bool) where
  unfoldable pub insert : A → List A → List A
  insert a [] = a ∷ []
  insert a (x ∷ xs) = let later = x ∷ insert a xs in if less x a then later else a ∷ x ∷ xs

  unfoldable pub sort_slice : List A → List A
  unfolding insert
  sort_slice [] = []
  sort_slice (x ∷ xs) = insert x (sort_slice xs)

  insert-perm : (a : A) (xs : List A) → Perm (insert a xs) (a ∷ xs)
  unfolding insert
  insert-perm a [] = Perm.refl (a ∷ [])
  insert-perm a (x ∷ xs) = elim (Bool-cases (less x a)) [
    | inl e ↦ rw e (Perm.trans (Perm.cons x (insert-perm a xs)) (Perm.swap a x xs))
    | inr e ↦ rw e (Perm.refl (a ∷ x ∷ xs))
  ]

  pub sort_slice-perm : (xs : List A) → Perm (sort_slice xs) xs
  unfolding sort_slice
  sort_slice-perm [] = Perm.refl []
  sort_slice-perm (x ∷ xs) =
      Perm.trans (insert-perm x (sort_slice xs)) (Perm.cons x (sort_slice-perm xs))

module _ {ℓ} {A : Type ℓ} (before less : A → A → Bool) where
  -- No item is `before` one that stands earlier.
  abbrev pub IsSorted : List A → Type 0
  IsSorted [] = Unit
  IsSorted (x ∷ xs) = All (λ y. before y x ≡ false) xs × IsSorted xs

  -- The comparison `less` follows `before`, an order on what it looks at first.
  pub record Follows : Type ℓ where
    pub asym : (a b : A) → less a b ≡ true → before b a ≡ false
    pub refines : (a b : A) → less a b ≡ false → before a b ≡ false
    pub trans : (a b c : A) → before b a ≡ false → before c b ≡ false → before c a ≡ false

  module _ (order : Follows) where
    All-not-before_trans :
        (a x : A) (xs : List A)
        → before x a ≡ false
        → All (λ y. before y x ≡ false) xs
        → All (λ y. before y a ≡ false) xs
    All-not-before_trans a x [] h hs = tt
    All-not-before_trans a x (y ∷ xs) h hs =
        (order.trans a x y h hs.0, All-not-before_trans a x xs h hs.1)

    All-insert :
        (x a : A) (xs : List A)
        → before a x ≡ false
        → All (λ y. before y x ≡ false) xs
        → All (λ y. before y x ≡ false) (insert less a xs)
    unfolding insert
    All-insert x a [] h hs = (h, tt)
    All-insert x a (y ∷ xs) h hs = elim (Bool-cases (less y a)) [
      | inl e ↦ rw e (hs.0, All-insert x a xs h hs.1)
      | inr e ↦ rw e (h, hs)
    ]

    insert-IsSorted : (a : A) (xs : List A) → IsSorted xs → IsSorted (insert less a xs)
    unfolding insert
    insert-IsSorted a [] h = (tt, tt)
    insert-IsSorted a (x ∷ xs) h = elim (Bool-cases (less x a)) [
      | inl e ↦ rw e (All-insert x a xs (order.asym x a e) h.0, insert-IsSorted a xs h.1)
      | inr e ↦ let g = order.refines x a e in rw e ((g, All-not-before_trans a x xs g h.0), h)
    ]

    pub sort_slice-IsSorted : (xs : List A) → IsSorted (sort_slice less xs)
    unfolding sort_slice
    sort_slice-IsSorted [] = tt
    sort_slice-IsSorted (x ∷ xs) = insert-IsSorted x (sort_slice less xs) (sort_slice-IsSorted xs)

module _ {ℓ κ} {A : Type ℓ} (P : A → Type κ) (less : A → A → Bool) where
  All-insert_of : (a : A) (xs : List A) → P a → All P xs → All P (insert less a xs)
  unfolding insert
  All-insert_of a [] h hs = (h, tt)
  All-insert_of a (x ∷ xs) h hs = elim (Bool-cases (less x a)) [
    | inl e ↦ rw e (hs.0, All-insert_of a xs h hs.1)
    | inr e ↦ rw e (h, hs)
  ]

  pub All-sort_slice : (xs : List A) → All P xs → All P (sort_slice less xs)
  unfolding sort_slice
  All-sort_slice [] h = tt
  All-sort_slice (x ∷ xs) h = All-insert_of x (sort_slice less xs) h.0 (All-sort_slice xs h.1)

module _ {ℓ} {A : Type ℓ} (f : A → ℕ) (less : A → A → Bool) where
  sum_of-insert : (a : A) (xs : List A) → sum_of f (insert less a xs) ≡ f a + sum_of f xs
  unfolding insert
  sum_of-insert a [] = omega arith
  sum_of-insert a (x ∷ xs) = ground (arith, sum_of-insert a xs)

  pub sum_of-sort_slice : (xs : List A) → sum_of f (sort_slice less xs) ≡ sum_of f xs
  unfolding sort_slice
  sum_of-sort_slice [] = omega arith
  sum_of-sort_slice (x ∷ xs) =
      omega (arith, sum_of-insert x (sort_slice less xs), sum_of-sort_slice xs)

module _ {A : Type 0} (less : A → A → Bool) where
  In-insert : (a : A) (xs : List A) → In a (insert less a xs)
  unfolding insert
  In-insert a [] = inl refl
  In-insert a (x ∷ xs) = elim (Bool-cases (less x a)) [
    | inl e ↦ rw e (inr (In-insert a xs))
    | inr e ↦ rw e (inl refl)
  ]

  In-insert_other : (a b : A) (xs : List A) → In b xs → In b (insert less a xs)
  unfolding insert
  In-insert_other a b [] i = absurd i
  In-insert_other a b (x ∷ xs) (inl e) = elim (Bool-cases (less x a)) [
    | inl h ↦ rw h (inl e)
    | inr h ↦ rw h (inr (inl e))
  ]
  In-insert_other a b (x ∷ xs) (inr i) = elim (Bool-cases (less x a)) [
    | inl h ↦ rw h (inr (In-insert_other a b xs i))
    | inr h ↦ rw h (inr (inr i))
  ]

  pub In-sort_slice : (a : A) (xs : List A) → In a xs → In a (sort_slice less xs)
  unfolding sort_slice
  In-sort_slice a [] i = absurd i
  In-sort_slice a (x ∷ xs) (inl e) =
      subst (λ y. In a (insert less y (sort_slice less xs))) e (In-insert a (sort_slice less xs))
  In-sort_slice a (x ∷ xs) (inr i) = In-insert_other x a (sort_slice less xs) (In-sort_slice a xs i)
