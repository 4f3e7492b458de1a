-- ===== src/Repository/Identifiers.antt =====
-- The identifier lists that statements lock rows by (sortedUniqueIDs of repository.go): the same
-- identifiers, each once, in increasing order, so that every transaction locks in one order.
use content_platform.Prelude.{
  ℤ, Bool, true, false, ◌||◌, List, [], ◌∷◌, ◌≡◌, refl, inl, inr, arith, eq_ℤ, eq_ℤ_sound, ltb_ℤ,
  sort_by, insert_by, any_where, All, All-weaken, All-insert_by, Bool-cases, ap, ◌∙◌,
}
use content_platform.Repository.{drop_repeats, sorted_unique_ids, contains_id}

-- Each identifier is before all that follow it.
abbrev pub IsIncreasing : List ℤ → Type 0
IsIncreasing [] = Unit
IsIncreasing (x ∷ xs) = All (λ y. ltb_ℤ x y ≡ true) xs × IsIncreasing xs

-- None is after one that follows it.
abbrev IsOrdered : List ℤ → Type 0
IsOrdered [] = Unit
IsOrdered (x ∷ xs) = All (λ y. ltb_ℤ y x ≡ false) xs × IsOrdered xs

not_before_trans : (a b c : ℤ) → ltb_ℤ b a ≡ false → ltb_ℤ c b ≡ false → ltb_ℤ c a ≡ false
unfolding ltb_ℤ
not_before_trans a b c h k = ground arith

before_not_after : (a b : ℤ) → ltb_ℤ a b ≡ true → ltb_ℤ b a ≡ false
unfolding ltb_ℤ
before_not_after a b h = ground arith

strictly_before : (x y : ℤ) → eq_ℤ x y ≡ false → ltb_ℤ y x ≡ false → ltb_ℤ x y ≡ true
unfolding ltb_ℤ eq_ℤ
strictly_before x y h k = ground arith

before_later : (x y z : ℤ) → ltb_ℤ x y ≡ true → ltb_ℤ z y ≡ false → ltb_ℤ x z ≡ true
unfolding ltb_ℤ
before_later x y z h k = ground arith

insert_by-IsOrdered : (a : ℤ) (xs : List ℤ) → IsOrdered xs → IsOrdered (insert_by ltb_ℤ a xs)
unfolding insert_by
insert_by-IsOrdered a [] h = (tt, tt)
insert_by-IsOrdered a (x ∷ xs) h = elim (Bool-cases (ltb_ℤ x a)) [
  | inl e ↦ rw e (
    All-insert_by (λ y. ltb_ℤ y x ≡ false) ltb_ℤ a xs (before_not_after x a e) h.0,
    insert_by-IsOrdered a xs h.1,
  )
  | inr e ↦ rw e (
    (
      e,
      All-weaken (λ y. ltb_ℤ y x ≡ false) (λ y. ltb_ℤ y a ≡ false) xs
          (λ y k. not_before_trans a x y e k) h.0,
    ),
    h,
  )
]

sort_by-IsOrdered : (xs : List ℤ) → IsOrdered (sort_by ltb_ℤ xs)
unfolding sort_by
sort_by-IsOrdered [] = tt
sort_by-IsOrdered (x ∷ xs) = insert_by-IsOrdered x (sort_by ltb_ℤ xs) (sort_by-IsOrdered xs)

All-drop_repeats : (P : ℤ → Type 0) (xs : List ℤ) → All P xs → All P (drop_repeats xs)
unfolding drop_repeats
All-drop_repeats P [] h = tt
All-drop_repeats P (x ∷ []) h = h
All-drop_repeats P (x ∷ y ∷ rest) h = elim (Bool-cases (eq_ℤ x y)) [
  | inl e ↦ rw e (All-drop_repeats P (y ∷ rest) h.1)
  | inr e ↦ rw e (h.0, All-drop_repeats P (y ∷ rest) h.1)
]

drop_repeats-IsIncreasing : (xs : List ℤ) → IsOrdered xs → IsIncreasing (drop_repeats xs)
unfolding drop_repeats
drop_repeats-IsIncreasing [] h = tt
drop_repeats-IsIncreasing (x ∷ []) h = (tt, tt)
drop_repeats-IsIncreasing (x ∷ y ∷ rest) h =
    let later = drop_repeats-IsIncreasing (y ∷ rest) h.1 in
    elim (Bool-cases (eq_ℤ x y)) [
      | inl e ↦ rw e later
      | inr e ↦
          let first = strictly_before x y e h.0.0 in
          rw e (
            All-drop_repeats (λ z. ltb_ℤ x z ≡ true) (y ∷ rest)
                (
                  first,
                  All-weaken (λ z. ltb_ℤ z y ≡ false) (λ z. ltb_ℤ x z ≡ true) rest
                      (λ z k. before_later x y z first k) h.1.0,
                ),
            later,
          )
    ]

-- The sorted identifiers without repeats come out in strictly increasing order, whatever the order of the input.
pub sorted_unique_ids-IsIncreasing : (ids : List ℤ) → IsIncreasing (sorted_unique_ids ids)
unfolding sorted_unique_ids
sorted_unique_ids-IsIncreasing ids =
    drop_repeats-IsIncreasing (sort_by ltb_ℤ ids) (sort_by-IsOrdered ids)

pub any_where-insert_by :
    {A : Type 0} (p : A → Bool) (lt : A → A → Bool) (a : A) (xs : List A)
    → any_where p (insert_by lt a xs) ≡ (p a || any_where p xs)
unfolding any_where insert_by
any_where-insert_by p lt a [] = refl
any_where-insert_by p lt a (x ∷ xs) = ground (arith, any_where-insert_by p lt a xs)

pub any_where-sort_by :
    {A : Type 0} (p : A → Bool) (lt : A → A → Bool) (xs : List A)
    → any_where p (sort_by lt xs) ≡ any_where p xs
unfolding any_where sort_by
any_where-sort_by p lt [] = refl
any_where-sort_by p lt (x ∷ xs) =
    any_where-insert_by p lt x (sort_by lt xs) ∙ ap (λ b. p x || b) (any_where-sort_by p lt xs)

contains_id-drop_repeats :
    (xs : List ℤ) (id : ℤ) → contains_id (drop_repeats xs) id ≡ contains_id xs id
unfolding drop_repeats contains_id any_where
contains_id-drop_repeats [] id = refl
contains_id-drop_repeats (x ∷ []) id = refl
contains_id-drop_repeats (x ∷ y ∷ rest) id =
    ground (arith, contains_id-drop_repeats (y ∷ rest) id, eq_ℤ_sound x y)

-- Sorting an identifier list and dropping its repeats loses no identifier and adds none.
pub contains_id-sorted_unique_ids :
    (ids : List ℤ) (id : ℤ) → contains_id (sorted_unique_ids ids) id ≡ contains_id ids id
unfolding sorted_unique_ids contains_id
contains_id-sorted_unique_ids ids id =
    contains_id-drop_repeats (sort_by ltb_ℤ ids) id ∙ any_where-sort_by (λ x. eq_ℤ x id) ltb_ℤ ids
