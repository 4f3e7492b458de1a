-- ===== src/Token/Decimal.antt =====
-- ParsePositiveID of infra/token/refresh.go, with what it uses of package strconv. The round trip is
-- in the module below this one.
use content_platform.Prelude.{
  ℕ, zero, suc, ◌+◌, ◌-◌, ◌*◌, ◌/◌, ◌%◌, ℤ, pos, negsuc, Text, [], ◌∷◌, Bool, true, false, not,
  ◌&&◌, ◌||◌, Option, none, some, ltb, leb, text_eq, if◌then◌else◌,
}
pub mod Digits
pub mod RoundTrip

abbrev pub max_uint64 : ℕ
max_uint64 = 18446744073709551615

-- 1 << 63
abbrev pub int64_cutoff : ℕ
int64_cutoff = 9223372036854775808

-- The loop of strconv's formatBits, with fuel: each round divides by ten.
unfoldable pub digits : ℕ → ℕ → Text → Text
digits zero n out = out
digits (suc fuel) zero out = out
digits (suc fuel) (suc n) out = digits fuel (suc n / 10) ((b'0' + suc n % 10) ∷ out)

-- `strconv.FormatInt(value, 10)`; a number has at most as many digits as its value.
unfoldable pub format_int : ℤ → Text
format_int (pos zero) = b'0' ∷ []
format_int (pos (suc n)) = digits (suc n) (suc n) []
format_int (negsuc n) = b'-' ∷ digits (suc n) (suc n) []

unfoldable pub is_digit : ℕ → Bool
is_digit c = leb b'0' c && leb c b'9'

-- The loop of strconv.ParseUint in base 10: `none` is ErrSyntax or ErrRange. `n * 10 + d` is computed
-- in uint64 and `n` is below the cutoff, so the sum alone can wrap.
unfoldable pub parse_uint_loop : Text → ℕ → Option ℕ
parse_uint_loop [] n = some n
parse_uint_loop (c ∷ s) n =
    let product = n * 10 in
    let sum = (product + (c - b'0')) % 18446744073709551616 in
    if not (is_digit c)
    then none
    else if leb (max_uint64 / 10 + 1) n
    then none
    else if ltb sum product
    then none
    else parse_uint_loop s sum

-- `strconv.ParseInt(raw, 10, 64)` of a text that begins with a digit.
unfoldable pub parse_int : Text → Option ℤ
parse_int s = elim (parse_uint_loop s 0) [
  | none ↦ none
  | some n ↦ if leb int64_cutoff n then none else some (pos n)
]

unfoldable pub all_digits : Text → Bool
all_digits [] = true
all_digits (c ∷ s) = is_digit c && all_digits s

-- `value <= 0 || strconv.FormatInt(value, 10) != raw`
unfoldable pub canonical_value : Text → ℤ → Option ℤ
canonical_value raw (pos zero) = none
canonical_value raw (pos (suc n)) =
    if text_eq (format_int (pos (suc n))) raw then some (pos (suc n)) else none
canonical_value raw (negsuc n) = none

-- ParsePositiveID: `none` is ErrInvalidPositiveID.
unfoldable pub parse_positive_id : Text → Option ℤ
parse_positive_id [] = none
parse_positive_id (c ∷ s) =
    if ltb c b'1' || ltb b'9' c
    then none
    else if not (all_digits s)
    then none
    else elim (parse_int (c ∷ s)) [ none ↦ none | some value ↦ canonical_value (c ∷ s) value ]
