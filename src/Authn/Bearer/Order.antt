-- ===== src/Authn/Bearer/Order.antt =====
-- The loop over a header visits the fields of a Go map in no fixed order.
use content_platform.Prelude.{
  ℕ, suc, ◌≤◌, ◌+◌, length, if◌then◌else◌, Text, List, [], ◌∷◌, ◌≡◌, ◌⊎◌, inl, inr, refl, subst,
  arith, Bool-cases,
}
use mathlib.Core.Logic.{∥∥₁_elim}
use mathlib.Core.List.{Perm, Permᴰ}
use content_platform.Http.{Header, equal_fold}
use content_platform.Authn.Bearer.{count_values, count_fields, only_one, single_header_value}

-- Equal counts, and equal values unless the count is two or more.
abbrev IsSame : Text × ℕ → Text × ℕ → Type 0
IsSame p q = (p.1 ≡ q.1) × ((p.0 ≡ q.0) ⊎ (2 ≤ p.1))

IsSame-refl : (p : Text × ℕ) → IsSame p p
IsSame-refl p = (refl, inl refl)

count_values-IsSame :
    (values : List Text) (p q : Text × ℕ)
    → IsSame p q
    → IsSame (count_values values p) (count_values values q)
unfolding count_values
count_values-IsSame [] p q h = h
count_values-IsSame (x ∷ values) p q (e, h) =
    count_values-IsSame values (x, suc p.1) (x, suc q.1) (omega arith, inl refl)

count_values-count :
    (values : List Text) (p : Text × ℕ) → (count_values values p).1 ≡ p.1 + length values
unfolding count_values
count_values-count [] p = omega arith
count_values-count (x ∷ values) p = omega (arith, count_values-count values (x, suc p.1))

count_values-swap :
    (xs ys : List Text) (p : Text × ℕ)
    → IsSame (count_values ys (count_values xs p)) (count_values xs (count_values ys p))
count_values-swap [] ys p = unfold count_values in IsSame-refl (count_values ys p)
count_values-swap (x ∷ xs) [] p = unfold count_values in IsSame-refl (count_values (x ∷ xs) p)
count_values-swap (x ∷ xs) (y ∷ ys) p =
    let a = count_values-count (y ∷ ys) (count_values (x ∷ xs) p) in
    let b = count_values-count (x ∷ xs) p in
    let c = count_values-count (x ∷ xs) (count_values (y ∷ ys) p) in
    let d = count_values-count (y ∷ ys) p in (omega (arith, a, b, c, d), inr (omega (arith, a, b)))

only_one-IsSame : (p q : Text × ℕ) → IsSame p q → only_one p ≡ only_one q
unfolding only_one
only_one-IsSame p q h = ground arith

module _ (wanted : Text) where
  step : Text × List Text → Text × ℕ → Text × ℕ
  step field p = if equal_fold field.0 wanted then count_values field.1 p else p

  step-IsSame :
      (field : Text × List Text) (p q : Text × ℕ)
      → IsSame p q
      → IsSame (step field p) (step field q)
  unfolding step
  step-IsSame field p q h = elim (Bool-cases (equal_fold field.0 wanted)) [
    | inl e ↦ rw e (count_values-IsSame field.1 p q h)
    | inr e ↦ rw e h
  ]

  step-swap :
      (x y : Text × List Text) (p : Text × ℕ) → IsSame (step y (step x p)) (step x (step y p))
  unfolding step
  step-swap x y p = elim (Bool-cases (equal_fold x.0 wanted)) [
    | inl e ↦ elim (Bool-cases (equal_fold y.0 wanted)) [
      | inl f ↦ rw (e, f) (count_values-swap x.1 y.1 p)
      | inr f ↦ rw (e, f) (IsSame-refl (count_values x.1 p))
    ]
    | inr e ↦ elim (Bool-cases (equal_fold y.0 wanted)) [
      | inl f ↦ rw (e, f) (IsSame-refl (count_values y.1 p))
      | inr f ↦ rw (e, f) (IsSame-refl p)
    ]
  ]

  count_fields-IsSame :
      (h : Header) (p q : Text × ℕ)
      → IsSame p q
      → IsSame (count_fields wanted h p) (count_fields wanted h q)
  unfolding count_fields step
  count_fields-IsSame [] p q e = e
  count_fields-IsSame (x ∷ h) p q e =
      count_fields-IsSame h (step x p) (step x q) (step-IsSame x p q e)

  IsSame-trans : (p q r : Text × ℕ) → IsSame p q → IsSame q r → IsSame p r
  IsSame-trans p q r h k = ground arith

  count_fields-Permᴰ :
      (h k : Header)
      → Permᴰ h k
      → (p : Text × ℕ) → IsSame (count_fields wanted h p) (count_fields wanted k p)
  unfolding count_fields step
  count_fields-Permᴰ _ _ Permᴰ.nil p = IsSame-refl p
  count_fields-Permᴰ _ _ (Permᴰ.cons {a = x} {b = y} {l₁ = h} {l₂ = k} e d) p =
      subst
        (λ (z : Text × List Text).
          IsSame (count_fields wanted h (step x p)) (count_fields wanted k (step z p)))
        e (count_fields-Permᴰ h k d (step x p))
  count_fields-Permᴰ _ _ (Permᴰ.swap {a = x} {b = y} {a' = y'} {b' = x'} {l = h} e f) p =
      subst
        (λ (z : Text × List Text).
          IsSame (count_fields wanted h (step y (step x p)))
            (count_fields wanted h (step x' (step z p))))
        f
        (subst
          (λ (z : Text × List Text).
            IsSame (count_fields wanted h (step y (step x p)))
              (count_fields wanted h (step z (step y p))))
          e (count_fields-IsSame h (step y (step x p)) (step x (step y p)) (step-swap x y p)))
  count_fields-Permᴰ _ _ (Permᴰ.trans {l₁ = h} {l₂ = k} {l₃ = l} d e) p =
      IsSame-trans _ _ _ (count_fields-Permᴰ h k d p) (count_fields-Permᴰ k l e p)

  -- Header fields in another order give the same answer: the single value, or none.
  pub single_header_value-Perm :
      (h k : Header) → Perm h k → single_header_value h wanted ≡ single_header_value k wanted
  unfolding single_header_value
  single_header_value-Perm h k e =
      ∥∥₁_elim e (hlevel) (λ d. only_one-IsSame _ _ (count_fields-Permᴰ h k d ([], 0)))
