-- ===== src/Prelude/Members.antt =====
-- Every entry of a list that is selected from another and sorted is an entry of that other.
use mathlib.Core.Path.{◌≡◌}
use mathlib.Core.Bool.{Bool, true}
use mathlib.Core.List.{List, [], ◌∷◌, Mem, mem-cons_self, mem-cons_of_mem}
use mathlib.Core.Logic.{inl, inr}
use content_platform.Prelude.Tests.{Bool-cases}
use content_platform.Prelude.Lists.{All}
use content_platform.Prelude.Sort.{sort_by, select_where, All-sort_by}

module _ {A : Type 0} where
  pub All-weaken : (P Q : A → Type 0) (xs : List A) → ((a : A) → P a → Q a) → All P xs → All Q xs
  All-weaken P Q [] f hs = tt
  All-weaken P Q (x ∷ xs) f hs = (f x hs.0, All-weaken P Q xs f hs.1)

  -- The entries of a selection are entries of the list, and pass the test.
  All-select : (p : A → Bool) (xs : List A) → All (λ a. Mem a xs × (p a ≡ true)) (select_where p xs)
  unfolding select_where
  All-select p [] = tt
  All-select p (x ∷ xs) =
      let later =
        All-weaken (λ a. Mem a xs × (p a ≡ true)) (λ a. Mem a (x ∷ xs) × (p a ≡ true))
          (select_where p xs) (λ a h. (mem-cons_of_mem x h.0, h.1)) (All-select p xs) in
      elim (Bool-cases (p x)) [ inl e ↦ rw e ((mem-cons_self, e), later) | inr e ↦ rw e later ]

  sorted_selection :
      (lt : A → A → Bool) (p : A → Bool) (xs : List A)
      → All (λ a. Mem a xs × (p a ≡ true)) (sort_by lt (select_where p xs))
  sorted_selection lt p xs =
      All-sort_by (λ a. Mem a xs × (p a ≡ true)) lt (select_where p xs) (All-select p xs)

  pub sorted_rows :
      (lt : A → A → Bool) (p : A → Bool) (xs : List A)
      → All (λ a. Mem a xs) (sort_by lt (select_where p xs))
  sorted_rows lt p xs =
      All-weaken (λ a. Mem a xs × (p a ≡ true)) (λ a. Mem a xs) (sort_by lt (select_where p xs))
        (λ a h. h.0) (sorted_selection lt p xs)
