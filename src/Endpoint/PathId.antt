-- ===== src/Endpoint/PathId.antt =====
-- parsePathID of identity/handler/profile.go.
use content_platform.Prelude.{
  ℤ, pos, negsuc, zero, suc, Text, [], ◌∷◌, Bool, true, false, not, ◌||◌, Option, none, some, ltb,
  text_eq, is_positive, if◌then◌else◌, ◌≡◌, refl, arith,
}
use content_platform.Token.Decimal.{
  format_int, is_digit, parse_int, all_digits, canonical_value, parse_positive_id,
}

-- The loop over the bytes behind the first.
unfoldable pub rest_are_digits : Text → Bool
rest_are_digits [] = true
rest_are_digits (c ∷ s) = if ltb c b'0' || ltb b'9' c then false else rest_are_digits s

-- `value <= 0 || strconv.FormatInt(value, 10) != raw`
unfoldable pub check_value : Text → ℤ → Option ℤ
check_value raw value =
    if not (is_positive value) || not (text_eq (format_int value) raw) then none else some value

-- parsePathID
unfoldable pub parse_path_id : Text → Option ℤ
unfolding rest_are_digits
parse_path_id [] = none
parse_path_id (c ∷ s) =
    if ltb c b'1' || ltb b'9' c
    then none
    else if not (rest_are_digits s)
    then none
    else elim (parse_int (c ∷ s)) [ none ↦ none | some value ↦ check_value (c ∷ s) value ]

rest_are_digits-all_digits : (s : Text) → rest_are_digits s ≡ all_digits s
unfolding rest_are_digits all_digits is_digit
rest_are_digits-all_digits [] = refl
rest_are_digits-all_digits (c ∷ s) = ground (arith, rest_are_digits-all_digits s)

check_value-canonical_value : (raw : Text) (v : ℤ) → check_value raw v ≡ canonical_value raw v
unfolding check_value canonical_value is_positive
check_value-canonical_value raw (pos zero) = refl
check_value-canonical_value raw (pos (suc n)) = ground arith
check_value-canonical_value raw (negsuc n) = refl

check_values-canonical_values :
    (raw : Text) (o : Option ℤ)
    → ◌≡◌ {A = Option ℤ}
        (elim o [ none ↦ none | some value ↦ check_value raw value ])
        (elim o [ none ↦ none | some value ↦ canonical_value raw value ])
check_values-canonical_values raw none = refl
check_values-canonical_values raw (some v) = check_value-canonical_value raw v

-- The identifiers in paths are read as those in tokens are: parsePathID and ParsePositiveID agree on
-- every text.
pub parse_path_id-parse_positive_id : (s : Text) → parse_path_id s ≡ parse_positive_id s
unfolding parse_path_id parse_positive_id
parse_path_id-parse_positive_id [] = refl
parse_path_id-parse_positive_id (c ∷ s) =
    ground (
      arith,
      rest_are_digits-all_digits s,
      check_values-canonical_values (c ∷ s) (parse_int (c ∷ s)),
    )
