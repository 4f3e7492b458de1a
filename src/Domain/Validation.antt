-- ===== src/Domain/Validation.antt =====
-- identity/domain/validation.go, with what it uses of packages strings, unicode and utf8. The
-- validator package and the Unicode lower-case table beyond ASCII are parameters.
pub mod Trimming
pub mod Normal
use content_platform.Prelude.{
  ℕ, ◌+◌, Text, Bool, ◌&&◌, ◌||◌, Option, none, some, [], ◌∷◌, map, length, ltb, leb, ◌==◌,
  if◌then◌else◌,
}

-- `unicode.IsSpace`: the code points with the property White_Space.
unfoldable pub is_space : ℕ → Bool
is_space r =
    (leb 9 r && leb r 13)
    || r == 32
    || r == 0x85
    || r == 0xa0
    || r == 0x1680
    || (leb 0x2000 r && leb r 0x200a)
    || r == 0x2028
    || r == 0x2029
    || r == 0x202f
    || r == 0x205f
    || r == 0x3000

-- Trimming, by a test on code points.
module _ (blank : ℕ → Bool) where
  unfoldable pub trim_left : Text → Text
  trim_left [] = []
  trim_left (r ∷ s) = if blank r then trim_left s else r ∷ s

  -- `r ∷ s`, unless that is blank.
  unfoldable pub keep_unless_blank : ℕ → Text → Text
  keep_unless_blank r [] = if blank r then [] else r ∷ []
  keep_unless_blank r (c ∷ s) = r ∷ c ∷ s

  unfoldable pub trim_right : Text → Text
  trim_right [] = []
  trim_right (r ∷ s) = keep_unless_blank r (trim_right s)

-- `strings.TrimSpace`
unfoldable pub trim_space : Text → Text
unfolding trim_left trim_right keep_unless_blank
trim_space s = trim_right is_space (trim_left is_space s)

-- The bytes of a code point in UTF-8; one for a byte that is not valid UTF-8.
unfoldable pub rune_width : ℕ → ℕ
rune_width r =
    if ltb r 0x80
    then 1
    else if ltb r 0x800
    then 2
    else if ltb r 0x10000
    then 3
    else if ltb r 0x110000
    then 4
    else 1

-- `len(value)`
unfoldable pub byte_length : Text → ℕ
byte_length [] = 0
byte_length (r ∷ s) = rune_width r + byte_length s

pub record TextRules : Type 0 where
  -- unicode.ToLower above ASCII
  pub lower_table : ℕ → ℕ
  -- validator.Var(value, "required,email") == nil
  pub is_email : Text → Bool

-- The errors of the validation functions, named for their messages.
pub data FieldError : Type 0 where
  email_too_long email_malformed password_length display_name_length bio_too_long : FieldError

abbrev pub max_email_bytes : ℕ
max_email_bytes = 320

abbrev pub min_password_bytes : ℕ
min_password_bytes = 8

abbrev pub max_password_bytes : ℕ
max_password_bytes = 72

abbrev pub max_display_name_runes : ℕ
max_display_name_runes = 100

abbrev pub max_bio_runes : ℕ
max_bio_runes = 1000

module _ (rules : TextRules) where
  unfoldable pub to_lower_rune : ℕ → ℕ
  to_lower_rune r =
      if ltb r 0x80 then (if leb 65 r && leb r 90 then r + 32 else r) else rules.lower_table r

  -- `strings.ToLower`
  unfoldable pub to_lower : Text → Text
  to_lower s = map to_lower_rune s

  unfoldable pub normalize_email : Text → Text
  normalize_email value = to_lower (trim_space value)

  unfoldable pub validate_email : Text → Option FieldError
  validate_email value =
      let normalized = normalize_email value in
      if ltb max_email_bytes (byte_length normalized)
      then some email_too_long
      else if rules.is_email normalized
      then none
      else some email_malformed

unfoldable pub validate_registration_password : Text → Option FieldError
validate_registration_password value =
    if ltb (byte_length value) min_password_bytes || ltb max_password_bytes (byte_length value)
    then some password_length
    else none

unfoldable pub normalize_display_name : Text → Text
normalize_display_name value = trim_space value

unfoldable pub validate_display_name : Text → Option FieldError
validate_display_name value =
    let count = length (normalize_display_name value) in
    if ltb count 1 || ltb max_display_name_runes count then some display_name_length else none

unfoldable pub validate_bio : Text → Option FieldError
validate_bio value = if ltb max_bio_runes (length value) then some bio_too_long else none
