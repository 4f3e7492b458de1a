-- ===== src/Token/Decimal/Digits.antt =====
-- What strconv.FormatInt writes for a positive int64: at most 19 characters, all of them digits.
use content_platform.Prelude.{
  ℕ, zero, suc, ◌+◌, ◌*◌, ◌/◌, ◌%◌, ◌≤◌, ◌<◌, pos, Text, [], ◌∷◌, arith, length, All, ◌⊎◌,
}
use content_platform.GoStrings.{IsFreeOf}
use content_platform.Token.Decimal.{int64_cutoff, digits, format_int}

digits-All :
    (sep fuel n : ℕ) (out : Text)
    → (sep < b'0') ⊎ (b'9' < sep)
    → All (IsFreeOf sep) out
    → All (IsFreeOf sep) (digits fuel n out)
unfolding digits
digits-All sep zero n out s h = h
digits-All sep (suc fuel) zero out s h = h
digits-All sep (suc fuel) (suc n) out s h =
    digits-All sep fuel (suc n / 10) ((b'0' + suc n % 10) ∷ out) s ((ground arith, omega arith), h)

abbrev power_of_ten : ℕ → ℕ
power_of_ten zero = 1
power_of_ten (suc k) = 10 * power_of_ten k

length-digits :
    (k fuel n : ℕ) (out : Text) → n < power_of_ten k → length (digits fuel n out) ≤ k + length out
unfolding digits
length-digits k zero n out h = omega arith
length-digits k (suc fuel) zero out h = omega arith
length-digits zero (suc fuel) (suc n) out h = absurd (omega arith)
length-digits (suc k) (suc fuel) (suc n) out h =
    omega (arith, length-digits k fuel (suc n / 10) ((b'0' + suc n % 10) ∷ out) (omega arith))

pub format_int-All :
    (sep n : ℕ) → (sep < b'0') ⊎ (b'9' < sep) → 0 < n → All (IsFreeOf sep) (format_int (pos n))
unfolding format_int
format_int-All sep zero s h = absurd (omega arith)
format_int-All sep (suc n) s h = digits-All sep (suc n) (suc n) [] s tt

pub length-format_int : (n : ℕ) → n < int64_cutoff → length (format_int (pos n)) ≤ 19
unfolding format_int
length-format_int zero h = omega arith
length-format_int (suc n) h = omega (arith, length-digits 19 (suc n) (suc n) [] (omega arith))
