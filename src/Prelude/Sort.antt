-- ===== src/Prelude/Sort.antt =====
-- Sorting, selection and update of lists, for the sort package and for SQL statements.
use mathlib.Core.Path.{◌≡◌, subst}
use mathlib.Core.Logic.{inl, inr}
use mathlib.Core.Bool.{Bool, true, false, ◌||◌}
use mathlib.Core.List.{List, [], ◌∷◌}
use mathlib.Core.Option.{Option, none, some}
use native.Mathlib.Omega.{arith}
use content_platform.Prelude.Tests.{if◌then◌else◌, Bool-cases}
use content_platform.Prelude.Lists.{All}

module _ {A : Type 0} where
  -- Before the first entry that it does not follow: equal entries keep their order.
  unfoldable pub insert_by : (A → A → Bool) → A → List A → List A
  insert_by lt a [] = a ∷ []
  insert_by lt a (x ∷ xs) = if lt x a then x ∷ insert_by lt a xs else a ∷ x ∷ xs

  -- A stable sort: `sort.SliceStable`, ORDER BY, and `sort.Slice` where equal entries are alike.
  unfoldable pub sort_by : (A → A → Bool) → List A → List A
  sort_by lt [] = []
  sort_by lt (x ∷ xs) = insert_by lt x (sort_by lt xs)

  -- The rows that pass a WHERE clause.
  unfoldable pub select_where : (A → Bool) → List A → List A
  select_where p [] = []
  select_where p (x ∷ xs) = if p x then x ∷ select_where p xs else select_where p xs

  unfoldable pub find_where : (A → Bool) → List A → Option A
  find_where p [] = none
  find_where p (x ∷ xs) = if p x then some x else find_where p xs

  -- UPDATE … SET … WHERE …
  unfoldable pub update_where : (A → Bool) → (A → A) → List A → List A
  update_where p f [] = []
  update_where p f (x ∷ xs) = (if p x then f x else x) ∷ update_where p f xs

  unfoldable pub any_where : (A → Bool) → List A → Bool
  any_where p [] = false
  any_where p (x ∷ xs) = p x || any_where p xs

module _ {A : Type 0} (P : A → Type 0) where
  pub All-insert_by :
      (lt : A → A → Bool) (a : A) (xs : List A) → P a → All P xs → All P (insert_by lt a xs)
  unfolding insert_by
  All-insert_by lt a [] h hs = (h, tt)
  All-insert_by lt a (x ∷ xs) h hs = elim (Bool-cases (lt x a)) [
    | inl e ↦ rw e (hs.0, All-insert_by lt a xs h hs.1)
    | inr e ↦ rw e (h, hs)
  ]

  pub All-sort_by : (lt : A → A → Bool) (xs : List A) → All P xs → All P (sort_by lt xs)
  unfolding sort_by
  All-sort_by lt [] hs = tt
  All-sort_by lt (x ∷ xs) hs = All-insert_by lt x (sort_by lt xs) hs.0 (All-sort_by lt xs hs.1)

  pub All-select_where : (p : A → Bool) (xs : List A) → All P xs → All P (select_where p xs)
  unfolding select_where
  All-select_where p [] hs = tt
  All-select_where p (x ∷ xs) hs = elim (Bool-cases (p x)) [
    | inl e ↦ rw e (hs.0, All-select_where p xs hs.1)
    | inr e ↦ rw e (All-select_where p xs hs.1)
  ]

  -- A row that is found has what all rows have.
  pub All-find_where :
      (p : A → Bool) (xs : List A) {a : A} → All P xs → find_where p xs ≡ some a → P a
  unfolding find_where
  All-find_where p [] hs e = absurd (cc)
  All-find_where p (x ∷ xs) {a} hs e = elim (Bool-cases (p x)) [
    | inl t ↦ subst P (ground arith) hs.0
    | inr f ↦ All-find_where p xs hs.1 (ground arith)
  ]

  pub All-update_where :
      (p : A → Bool) (f : A → A) (xs : List A)
      → ((a : A) → p a ≡ true → P a → P (f a))
      → All P xs
      → All P (update_where p f xs)
  unfolding update_where
  All-update_where p f [] keep hs = tt
  All-update_where p f (x ∷ xs) keep hs = elim (Bool-cases (p x)) [
    | inl t ↦ rw t (keep x t hs.0, All-update_where p f xs keep hs.1)
    | inr t ↦ rw t (hs.0, All-update_where p f xs keep hs.1)
  ]

  -- What all entries of a sorted selection have, all entries that pass the test have.
  insert_by-All :
      (lt : A → A → Bool) (a : A) (xs : List A) → All P (insert_by lt a xs) → P a × All P xs
  unfolding insert_by
  insert_by-All lt a [] h = (h.0, tt)
  insert_by-All lt a (x ∷ xs) h = elim (Bool-cases (lt x a)) [
    | inl e ↦
        let g = subst (All P) {y = x ∷ insert_by lt a xs} (ground (arith, e)) h in
        let (first, rest) = insert_by-All lt a xs g.1 in (first, (g.0, rest))
    | inr e ↦ subst (All P) {y = a ∷ x ∷ xs} (ground (arith, e)) h
  ]

  sort_by-All : (lt : A → A → Bool) (xs : List A) → All P (sort_by lt xs) → All P xs
  unfolding sort_by
  sort_by-All lt [] h = tt
  sort_by-All lt (x ∷ xs) h =
      let (first, rest) = insert_by-All lt x (sort_by lt xs) h in (first, sort_by-All lt xs rest)

  select_where-All :
      (p : A → Bool) (xs : List A) → All P (select_where p xs) → All (λ a. p a ≡ true → P a) xs
  unfolding select_where
  select_where-All p [] h = tt
  select_where-All p (x ∷ xs) h = elim (Bool-cases (p x)) [
    | inl e ↦
        let g = subst (All P) {y = x ∷ select_where p xs} (ground (arith, e)) h in
        ((λ _. g.0), select_where-All p xs g.1)
    | inr e ↦
        let g = subst (All P) {y = select_where p xs} (ground (arith, e)) h in
        ((λ t. absurd (ground (arith, t, e))), select_where-All p xs g)
  ]

  pub All-of_sorted_selection :
      (lt : A → A → Bool) (p : A → Bool) (xs : List A)
      → All P (sort_by lt (select_where p xs))
      → All (λ a. p a ≡ true → P a) xs
  All-of_sorted_selection lt p xs h = select_where-All p xs (sort_by-All lt (select_where p xs) h)

-- The row that is found passes the test.
pub find_where-passes :
    {A : Type 0} (p : A → Bool) (xs : List A) {a : A} → find_where p xs ≡ some a → p a ≡ true
unfolding find_where
find_where-passes p [] e = absurd (cc)
find_where-passes p (x ∷ xs) e = elim (Bool-cases (p x)) [
  | inl t ↦ subst (λ a. p a ≡ true) (ground arith) t
  | inr f ↦ find_where-passes p xs (ground arith)
]

-- An update that moves no row into or out of the test's reach changes the row that is found.
pub find_where-update_where :
    {A : Type 0} (p : A → Bool) (f : A → A) (xs : List A) {a : A}
    → p (f a) ≡ true
    → find_where p xs ≡ some a
    → find_where p (update_where p f xs) ≡ some (f a)
unfolding find_where update_where
find_where-update_where p f [] h e = absurd (cc)
find_where-update_where p f (x ∷ xs) h e = ground (arith, find_where-update_where p f xs h)
