-- ===== src/Domain/Validation/Trimming.antt =====
-- strings.TrimSpace, as the normalisation functions of validation.go use it.
use content_platform.Prelude.{
  map, ℕ, Bool, true, false, Text, [], ◌∷◌, ◌++◌, ◌≡◌, refl, arith, All, ap, ◌∙◌, inl, inr,
  Bool-cases,
}
use content_platform.Domain.Validation.{
  is_space, trim_left, trim_right, keep_unless_blank, trim_space,
}

module _ (blank : ℕ → Bool) where
  abbrev pub starts_blank : Text → Bool
  starts_blank [] = false
  starts_blank (r ∷ s) = blank r

  abbrev pub ends_blank : Text → Bool
  ends_blank [] = false
  ends_blank (r ∷ []) = blank r
  ends_blank (r ∷ c ∷ s) = ends_blank (c ∷ s)

  abbrev pub AllBlank : Text → Type 0
  AllBlank s = All (λ r. blank r ≡ true) s

  pub trim_left-starts : (s : Text) → starts_blank (trim_left blank s) ≡ false
  unfolding trim_left
  trim_left-starts [] = refl
  trim_left-starts (r ∷ s) = ground (arith, trim_left-starts s)

  pub trim_left-fixed : (s : Text) → starts_blank s ≡ false → trim_left blank s ≡ s
  unfolding trim_left
  trim_left-fixed [] h = refl
  trim_left-fixed (r ∷ s) h = ground arith

  keep-ends :
      (r : ℕ) (s : Text) → ends_blank s ≡ false → ends_blank (keep_unless_blank blank r s) ≡ false
  unfolding keep_unless_blank
  keep-ends r [] h = ground arith
  keep-ends r (c ∷ s) h = h

  pub trim_right-ends : (s : Text) → ends_blank (trim_right blank s) ≡ false
  unfolding trim_right
  trim_right-ends [] = refl
  trim_right-ends (r ∷ s) = keep-ends r (trim_right blank s) (trim_right-ends s)

  pub trim_right-fixed : (s : Text) → ends_blank s ≡ false → trim_right blank s ≡ s
  unfolding trim_right keep_unless_blank
  trim_right-fixed [] h = refl
  trim_right-fixed (r ∷ []) h = ground arith
  trim_right-fixed (r ∷ c ∷ s) h = rw (trim_right-fixed (c ∷ s) h) refl

  keep-starts :
      (r : ℕ) (s : Text) → blank r ≡ false → starts_blank (keep_unless_blank blank r s) ≡ false
  unfolding keep_unless_blank
  keep-starts r [] h = ground arith
  keep-starts r (c ∷ s) h = h

  trim_right-starts :
      (s : Text) → starts_blank s ≡ false → starts_blank (trim_right blank s) ≡ false
  unfolding trim_right
  trim_right-starts [] h = refl
  trim_right-starts (r ∷ s) h = keep-starts r (trim_right blank s) h

  trim_left-parts :
      (s : Text) → (before : Text) × (s ≡ before ++ trim_left blank s) × AllBlank before
  unfolding trim_left
  trim_left-parts [] = ([], refl, tt)
  trim_left-parts (r ∷ s) =
      let (before, e, h) = trim_left-parts s in
      elim (Bool-cases (blank r)) [
        | inl b ↦ (r ∷ before, rw b (ap (λ t. r ∷ t) e), (b, h))
        | inr b ↦ ([], rw b refl, tt)
      ]

  keep-parts :
      (r : ℕ) (t after : Text)
      → AllBlank after
      → (rest : Text) × (r ∷ (t ++ after) ≡ keep_unless_blank blank r t ++ rest) × AllBlank rest
  unfolding keep_unless_blank
  keep-parts r [] after h = elim (Bool-cases (blank r)) [
    | inl b ↦ (r ∷ after, rw b refl, (b, h))
    | inr b ↦ (after, rw b refl, h)
  ]
  keep-parts r (c ∷ t) after h = (after, refl, h)

  trim_right-parts :
      (s : Text) → (after : Text) × (s ≡ trim_right blank s ++ after) × AllBlank after
  unfolding trim_right
  trim_right-parts [] = ([], refl, tt)
  trim_right-parts (r ∷ s) =
      let (after, e, h) = trim_right-parts s in
      let (rest, f, k) = keep-parts r (trim_right blank s) after h in
      (rest, ap (λ t. r ∷ t) e ∙ f, k)

module _ (blank : ℕ → Bool) where
  trim_left-blank :
      (before s : Text) → AllBlank blank before → trim_left blank (before ++ s) ≡ trim_left blank s
  unfolding trim_left
  trim_left-blank [] s h = refl
  trim_left-blank (r ∷ before) s (h, hs) = rw h (trim_left-blank before s hs)

  trim_right-blank :
      (s after : Text) → AllBlank blank after → trim_right blank (s ++ after) ≡ trim_right blank s
  unfolding trim_right keep_unless_blank
  trim_right-blank [] [] h = refl
  trim_right-blank [] (r ∷ after) (h, hs) = rw (trim_right-blank [] after hs, h) refl
  trim_right-blank (r ∷ s) after h = ap (keep_unless_blank blank r) (trim_right-blank s after h)

  trim_left_all : (after : Text) → AllBlank blank after → trim_left blank after ≡ []
  unfolding trim_left
  trim_left_all [] h = refl
  trim_left_all (r ∷ after) (h, hs) = rw h (trim_left_all after hs)

  -- Blank text behind a text is trimmed off, also where the whole text is blank.
  trim_both-blank :
      (s after : Text)
      → AllBlank blank after
      → trim_right blank (trim_left blank (s ++ after)) ≡ trim_right blank (trim_left blank s)
  unfolding trim_left
  trim_both-blank [] after h = ap (trim_right blank) (trim_left_all after h)
  trim_both-blank (r ∷ s) after h = elim (Bool-cases (blank r)) [
    | inl e ↦ rw e (trim_both-blank s after h)
    | inr e ↦ rw e (trim_right-blank (r ∷ s) after h)
  ]

  module _ (f : ℕ → ℕ) (same : (r : ℕ) → blank (f r) ≡ blank r) where
    trim_left-map : (s : Text) → trim_left blank (map f s) ≡ map f (trim_left blank s)
    unfolding trim_left
    trim_left-map [] = refl
    trim_left-map (r ∷ s) = elim (Bool-cases (blank r)) [
      | inl e ↦ rw (same r, e) (trim_left-map s)
      | inr e ↦ rw (same r, e) refl
    ]

    keep-map :
        (r : ℕ) (t : Text)
        → keep_unless_blank blank (f r) (map f t) ≡ map f (keep_unless_blank blank r t)
    unfolding keep_unless_blank
    keep-map r [] = elim (Bool-cases (blank r)) [
      | inl e ↦ rw (same r, e) refl
      | inr e ↦ rw (same r, e) refl
    ]
    keep-map r (c ∷ t) = refl

    trim_right-map : (s : Text) → trim_right blank (map f s) ≡ map f (trim_right blank s)
    unfolding trim_right
    trim_right-map [] = refl
    trim_right-map (r ∷ s) =
        ap (keep_unless_blank blank (f r)) (trim_right-map s) ∙ keep-map r (trim_right blank s)

-- White space around a text does not matter.
pub trim_space-blank :
    (before s after : Text)
    → AllBlank is_space before
    → AllBlank is_space after
    → trim_space (before ++ (s ++ after)) ≡ trim_space s
unfolding trim_space
trim_space-blank before s after h k =
    ap (trim_right is_space) (trim_left-blank is_space before (s ++ after) h)
    ∙ trim_both-blank is_space s after k

-- A function on code points that keeps white space and the rest apart may come before or after.
pub trim_space-map :
    (f : ℕ → ℕ) (s : Text)
    → ((r : ℕ) → is_space (f r) ≡ is_space r)
    → trim_space (map f s) ≡ map f (trim_space s)
unfolding trim_space
trim_space-map f s same =
    ap (trim_right is_space) (trim_left-map is_space f same s)
    ∙ trim_right-map is_space f same (trim_left is_space s)

-- What is trimmed off at either end is blank, and what is left neither starts nor ends blank.
pub trim_space-parts :
    (s : Text)
    → (before : Text) × (after : Text) × (s ≡ before ++ (trim_space s ++ after))
      × AllBlank is_space before
      × AllBlank is_space after
      × (starts_blank is_space (trim_space s) ≡ false)
      × (ends_blank is_space (trim_space s) ≡ false)
unfolding trim_space
trim_space-parts s =
    let (before, e, h) = trim_left-parts is_space s in
    let (after, f, k) = trim_right-parts is_space (trim_left is_space s) in
    (
      before,
      after,
      e ∙ ap (λ t. before ++ t) f,
      h,
      k,
      trim_right-starts is_space (trim_left is_space s) (trim_left-starts is_space s),
      trim_right-ends is_space (trim_left is_space s),
    )

pub trim_space-fixed :
    (s : Text) → starts_blank is_space s ≡ false → ends_blank is_space s ≡ false → trim_space s ≡ s
unfolding trim_space
trim_space-fixed s h k =
    ap (trim_right is_space) (trim_left-fixed is_space s h) ∙ trim_right-fixed is_space s k

pub trim_space_idem : (s : Text) → trim_space (trim_space s) ≡ trim_space s
trim_space_idem s =
    let (_, _, _, _, _, starts, ends) = trim_space-parts s in
    trim_space-fixed (trim_space s) starts ends
