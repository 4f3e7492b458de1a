-- ===== src/Token/Decimal/RoundTrip.antt =====
-- Identifiers in decimal: what format_int writes, parse_positive_id reads back, and it reads nothing
-- else.
use content_platform.Prelude.{
  ℕ, zero, suc, ◌+◌, ◌/◌, ◌%◌, ◌≤◌, ◌<◌, ℤ, pos, negsuc, Text, [], ◌∷◌, true, ◌||◌, Option, none,
  some, ◌≡◌, refl, ◌↔◌, ◌∙◌, sym, arith, ltb, text_eq, text_eq_sound, text_eq_refl, ◌==◌, ==_iff,
  Bool-cases, subst, inl, inr,
}
use content_platform.Token.Decimal.{
  int64_cutoff, digits, format_int, is_digit, parse_uint_loop, parse_int, all_digits,
  canonical_value, parse_positive_id,
}

-- One more digit is read as it was written.
parse_uint_loop-last :
    (n : ℕ) (out : Text)
    → n < int64_cutoff
    → parse_uint_loop ((b'0' + n % 10) ∷ out) (n / 10) ≡ parse_uint_loop out n
unfolding parse_uint_loop is_digit
parse_uint_loop-last n out h = ground arith

parse_uint_loop-digits :
    (fuel n : ℕ) (out : Text)
    → n ≤ fuel
    → n < int64_cutoff
    → parse_uint_loop (digits fuel n out) 0 ≡ parse_uint_loop out n
unfolding digits
parse_uint_loop-digits zero n out h fits = ground arith
parse_uint_loop-digits (suc fuel) zero out h fits = refl
parse_uint_loop-digits (suc fuel) (suc n) out h fits =
    parse_uint_loop-digits fuel (suc n / 10) ((b'0' + suc n % 10) ∷ out) (omega arith) (omega arith)
    ∙ parse_uint_loop-last (suc n) out fits

all_digits-digits :
    (fuel n : ℕ) (out : Text) → all_digits out ≡ true → all_digits (digits fuel n out) ≡ true
unfolding digits
all_digits-digits zero n out h = h
all_digits-digits (suc fuel) zero out h = h
all_digits-digits (suc fuel) (suc n) out h =
    all_digits-digits fuel (suc n / 10) ((b'0' + suc n % 10) ∷ out)
      (unfold all_digits is_digit in ground (arith))

-- The text begins with a digit that is not 0, and digits follow.
abbrev IsCanonical : Text → Type 0
IsCanonical [] = ⊥
IsCanonical (c ∷ s) = (b'1' ≤ c) × (c ≤ b'9') × (all_digits s ≡ true)

digits-zero : (fuel : ℕ) (out : Text) → digits fuel 0 out ≡ out
unfolding digits
digits-zero zero out = refl
digits-zero (suc fuel) out = refl

first_digit-IsCanonical :
    (n : ℕ) (out : Text)
    → n / 10 ≡ 0
    → 0 < n
    → all_digits out ≡ true
    → IsCanonical ((b'0' + n % 10) ∷ out)
first_digit-IsCanonical n out h k d = (omega arith, omega arith, d)

all_digits-cons :
    (n : ℕ) (out : Text) → all_digits out ≡ true → all_digits ((b'0' + n % 10) ∷ out) ≡ true
unfolding all_digits is_digit
all_digits-cons n out h = ground arith

digits-IsCanonical :
    (fuel n : ℕ) (out : Text)
    → n ≤ fuel
    → 0 < n
    → all_digits out ≡ true
    → IsCanonical (digits fuel n out)
unfolding digits
digits-IsCanonical zero n out h k d = absurd (omega arith)
digits-IsCanonical (suc fuel) zero out h k d = absurd (omega arith)
digits-IsCanonical (suc fuel) (suc n) out h k d =
    let last = (b'0' + suc n % 10) ∷ out in
    elim (Bool-cases (suc n / 10 == 0)) [
      | inl e ↦
          let z = (==_iff (suc n / 10) 0).0 e in
          subst (λ m. IsCanonical (digits fuel m last)) (sym z)
            (subst IsCanonical (sym (digits-zero fuel last))
              (first_digit-IsCanonical (suc n) out z k d))
      | inr e ↦
          digits-IsCanonical fuel (suc n / 10) last (omega arith) (ground arith)
            (all_digits-cons (suc n) out d)
    ]

parse_uint_loop-nil : (n : ℕ) → parse_uint_loop [] n ≡ some n
unfolding parse_uint_loop
parse_uint_loop-nil n = refl

parse_int-canonical : (n : ℕ) → n < int64_cutoff → parse_int (digits n n []) ≡ some (pos n)
unfolding parse_int
parse_int-canonical n h =
    let e : parse_uint_loop (digits n n []) 0 ≡ some n =
      parse_uint_loop-digits n n [] (omega arith) h ∙ parse_uint_loop-nil n in
    ground (arith, e)

parse_positive_id-digits :
    (n : ℕ) (s : Text)
    → IsCanonical s
    → parse_int s ≡ some (pos (suc n))
    → text_eq (format_int (pos (suc n))) s ≡ true
    → parse_positive_id s ≡ some (pos (suc n))
unfolding parse_positive_id canonical_value
parse_positive_id-digits n [] c h e = absurd c
parse_positive_id-digits n (c ∷ s) h k e = ground arith

-- Every positive int64 is read back from its decimal text.
pub parse_positive_id-format_int :
    (n : ℕ) → 0 < n → n < int64_cutoff → parse_positive_id (format_int (pos n)) ≡ some (pos n)
unfolding format_int
parse_positive_id-format_int zero h k = absurd (omega arith)
parse_positive_id-format_int (suc n) h k =
    parse_positive_id-digits n (digits (suc n) (suc n) [])
      (digits-IsCanonical (suc n) (suc n) [] (omega arith) h (unfold all_digits in refl))
      (parse_int-canonical (suc n) k) (text_eq_refl (digits (suc n) (suc n) []))

-- What a text that is accepted is, by the integer that it stands for.
abbrev pub IsAccepted : Text → Option ℤ → Type 0
IsAccepted s none = Unit
IsAccepted s (some (negsuc n)) = ⊥
IsAccepted s (some (pos n)) = (s ≡ format_int (pos n)) × (0 < n) × (n < int64_cutoff)

parse_int-bound : (s : Text) (n : ℕ) → parse_int s ≡ some (pos n) → n < int64_cutoff
unfolding parse_int
parse_int-bound s n h = ground arith

canonical_value-IsAccepted :
    (s : Text) (v : ℤ) → parse_int s ≡ some v → IsAccepted s (canonical_value s v)
unfolding canonical_value
canonical_value-IsAccepted s (pos zero) h = tt
canonical_value-IsAccepted s (negsuc n) h = tt
canonical_value-IsAccepted s (pos (suc n)) h =
    elim (Bool-cases (text_eq (format_int (pos (suc n))) s)) [
      | inl e ↦ rw e (
          (
            sym (text_eq_sound (format_int (pos (suc n))) s e),
            omega arith,
            parse_int-bound s (suc n) h,
          ))
      | inr e ↦ rw e (tt)
    ]

canonical_value-of_Option :
    (s : Text) (o : Option ℤ)
    → parse_int s ≡ o
    → IsAccepted s (elim o [ none ↦ none | some value ↦ canonical_value s value ])
canonical_value-of_Option s none h = tt
canonical_value-of_Option s (some v) h = canonical_value-IsAccepted s v h

parse_positive_id-IsAccepted : (s : Text) → IsAccepted s (parse_positive_id s)
unfolding parse_positive_id
parse_positive_id-IsAccepted [] = tt
parse_positive_id-IsAccepted (c ∷ s) = elim (Bool-cases (ltb c b'1' || ltb b'9' c)) [
  | inl e ↦ rw e (tt)
  | inr e ↦ elim (Bool-cases (all_digits s)) [
    | inl d ↦ rw (e, d) (canonical_value-of_Option (c ∷ s) (parse_int (c ∷ s)) refl)
    | inr d ↦ rw (e, d) (tt)
  ]
]

accepted_value :
    (s : Text) (v : ℤ)
    → IsAccepted s (some v)
    → (n : ℕ) × (v ≡ pos n) × (s ≡ format_int (pos n)) × (0 < n) × (n < int64_cutoff)
accepted_value s (pos n) h = (n, refl, h.0, h.1, h.2)
accepted_value s (negsuc n) h = absurd h

-- ParsePositiveID accepts exactly the decimal texts of the positive int64: `n` is the result for a
-- text when the text is what FormatInt writes for `n` and 0 < n < 2^63, and only then; no result
-- is negative.
pub parse_positive_id_iff :
    (s : Text) (v : ℤ)
    → (parse_positive_id s ≡ some v)
      ↔ ((n : ℕ) × (v ≡ pos n) × (s ≡ format_int (pos n)) × (0 < n) × (n < int64_cutoff))
parse_positive_id_iff s v = (
  (λ h. accepted_value s v (subst (IsAccepted s) h (parse_positive_id-IsAccepted s))),
  (λ (n, e, t, h, k). rw (e, t) (parse_positive_id-format_int n h k)),
)
