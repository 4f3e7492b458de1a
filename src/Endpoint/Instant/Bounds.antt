-- ===== src/Endpoint/Instant/Bounds.antt =====
-- validRFC3339Syntax stays inside its text, whatever the text is.
use content_platform.Prelude.{
  ◌&&◌, text_eq, if◌then◌else◌, not, true, leb, ◌+◌, ◌≤◌, Option-cases, ℕ, zero, suc, ◌<◌, List, [],
  ◌∷◌, Bool, false, Option, none, some, ◌≡◌, ◌≢◌, refl, arith, length, All, Bool-cases, inl, inr,
  ltb, ◌==◌,
}
use content_platform.Token.Decimal.{is_digit}
use content_platform.Endpoint.Instant.{
  number, two_digits, read, slice, zone_digits, valid_zone, skip_fraction, at, check, digits_at,
  digit_indices, valid_tail, valid_rfc3339_syntax,
}

at-ne-none : (index : ℕ) (raw : List ℕ) → index < length raw → at index raw ≢ none
unfolding at
at-ne-none index [] h = absurd (omega arith)
at-ne-none zero (c ∷ s) h = cc
at-ne-none (suc index) (c ∷ s) h = at-ne-none index s (omega arith)

check-ne-none :
    (test : ℕ → Bool) (o : Option ℕ) (rest : Option Bool)
    → o ≢ none
    → rest ≢ none
    → check test o rest ≢ none
unfolding check
check-ne-none test none rest h k = absurd (h refl)
check-ne-none test (some c) rest h k = elim (Bool-cases (test c)) [
  | inl e ↦ rw e k
  | inr e ↦ rw e (cc)
]

digits_at-ne-none :
    (indices : List ℕ) (raw : List ℕ) (rest : Option Bool)
    → All (λ index. index < length raw) indices
    → rest ≢ none
    → digits_at indices raw rest ≢ none
unfolding digits_at
digits_at-ne-none [] raw rest h k = k
digits_at-ne-none (index ∷ indices) raw rest (h, hs) k =
    check-ne-none is_digit (at index raw) (digits_at indices raw rest) (at-ne-none index raw h)
      (digits_at-ne-none indices raw rest hs k)

read-ne-none :
    {A B : Type 0} (o : Option A) (next : A → Option B)
    → o ≢ none
    → ((a : A) → o ≡ some a → next a ≢ none)
    → read o next ≢ none
unfolding read
read-ne-none none next h k = absurd (h refl)
read-ne-none (some a) next h k = k a refl

some-ne-none : {A : Type 0} (a : A) → some a ≢ none
some-ne-none a h = absurd (cc)

if-ne-none :
    {B : Type 0} (test : Bool) (x y : Option B)
    → (test ≡ true → x ≢ none)
    → (test ≡ false → y ≢ none)
    → (if test then x else y) ≢ none
if-ne-none true x y h k = h refl
if-ne-none false x y h k = k refl

zone_digits-ne-none :
    (left right : ℕ) (zone : List ℕ) (next : ℕ → Option Bool)
    → left < length zone
    → right < length zone
    → ((n : ℕ) → next n ≢ none)
    → zone_digits left right zone next ≢ none
unfolding zone_digits
zone_digits-ne-none left right zone next h k rest =
    read-ne-none (at left zone) _ (at-ne-none left zone h) (λ a _.
      read-ne-none (at right zone) _ (at-ne-none right zone k)
        (λ b _. if-ne-none (two_digits a b) _ _ (λ _. rest (number a b)) (λ _. cc)))

valid_zone-ne-none : (zone : List ℕ) → valid_zone zone ≢ none
unfolding valid_zone
valid_zone-ne-none zone =
    if-ne-none (text_eq zone (b'Z' ∷ [])) _ _ (λ _. cc)
      (λ _.
        if-ne-none (not (length zone == 6)) _ _ (λ _. cc)
          (λ six. check-ne-none _ (at 0 zone) _ (at-ne-none 0 zone (ground (arith, six))) (
            check-ne-none _ (at 3 zone) _ (at-ne-none 3 zone (ground (arith, six))) (
              zone_digits-ne-none 1 2 zone _ (ground (arith, six)) (ground (arith, six)) (λ hour.
                zone_digits-ne-none 4 5 zone _ (ground (arith, six)) (ground (arith, six))
                  (λ minute. some-ne-none (leb hour 23 && leb minute 59)))))))

-- The loop ends within its rounds, at an index that is not behind the end.
skip_fraction-ends :
    (fuel : ℕ) (raw : List ℕ) (start : ℕ)
    → start ≤ length raw
    → length raw < fuel + start
    → (end : ℕ) × (skip_fraction fuel raw start ≡ some end) × (end ≤ length raw)
unfolding skip_fraction read
skip_fraction-ends zero raw start h k = absurd (omega arith)
skip_fraction-ends (suc fuel) raw start h k = elim (Bool-cases (ltb start (length raw))) [
  | inr e ↦ (start, rw e refl, h)
  | inl e ↦ elim (Option-cases (at start raw)) [
    | inl f ↦ absurd (at-ne-none start raw (ground (arith, e)) f)
    | inr (c, f) ↦ elim (Bool-cases (is_digit c)) [
      | inl d ↦
          let (end, ends, bound) =
            skip_fraction-ends fuel raw (suc start) (ground (arith, e)) (omega arith) in
          (end, rw (e, f, d) ends, bound)
      | inr d ↦ (start, rw (e, f, d) refl, h)
    ]
  ]
]

leb-holds : (m n : ℕ) → m ≤ n → leb m n ≡ true
leb-holds m n h = ground arith

slice-ne-none : (index : ℕ) (raw : List ℕ) → index ≤ length raw → slice index raw ≢ none
unfolding slice
slice-ne-none index raw h = rw (leb-holds index (length raw) h) (cc)

valid_tail-ne-none : (raw : List ℕ) → 20 ≤ length raw → valid_tail raw ≢ none
unfolding valid_tail
valid_tail-ne-none raw h =
    let (end, ends, bound) = skip_fraction-ends (length raw) raw 20 h (omega arith) in
    read-ne-none (at 19 raw) _ (at-ne-none 19 raw (omega arith)) (λ c _.
      if-ne-none (c == b'.') _ _
        (λ _. rw ends (
          if-ne-none (end == 20) _ _ (λ _. cc)
            (λ _.
              read-ne-none (slice end raw) valid_zone (slice-ne-none end raw bound)
                (λ zone _. valid_zone-ne-none zone))))
        (λ _.
          read-ne-none (slice 19 raw) valid_zone (slice-ne-none 19 raw (omega arith))
            (λ zone _. valid_zone-ne-none zone)))

separator-ne-none :
    (c index : ℕ) (raw : List ℕ) (rest : Option Bool)
    → index < length raw
    → rest ≢ none
    → check (λ b. b == c) (at index raw) rest ≢ none
separator-ne-none c index raw rest h k =
    check-ne-none _ (at index raw) rest (at-ne-none index raw h) k

tests-ne-none : (raw : List ℕ) → ltb (length raw) 20 ≡ false → valid_rfc3339_syntax raw ≢ none
unfolding valid_rfc3339_syntax
tests-ne-none raw h = rw h (
    separator-ne-none b'-' 4 raw _ (ground arith) (
      separator-ne-none b'-' 7 raw _ (ground arith) (
        separator-ne-none b'T' 10 raw _ (ground arith) (
          separator-ne-none b':' 13 raw _ (ground arith) (
            separator-ne-none b':' 16 raw _ (ground arith) (
              digits_at-ne-none digit_indices raw _ (ground arith)
                (valid_tail-ne-none raw (ground arith))))))))

-- Every index and every slice of validRFC3339Syntax is inside its text, and the loop over the digits of
-- the fraction ends: the function returns for every sequence of bytes, and never panics.
pub valid_rfc3339_syntax-ne-none : (raw : List ℕ) → valid_rfc3339_syntax raw ≢ none
valid_rfc3339_syntax-ne-none raw = elim (Bool-cases (ltb (length raw) 20)) [
  | inl e ↦ unfold valid_rfc3339_syntax in rw e (cc)
  | inr e ↦ tests-ne-none raw e
]
