-- ===== src/Endpoint/Instant.antt =====
-- parseStrictRFC3339 and validRFC3339Syntax of identity/handler/status.go, with time.Parse of
-- time.RFC3339 for the texts that the syntax accepts. A test is `none` where an index of the source is
-- out of range, which is a panic there. The tests are of bytes.
use content_platform.Prelude.{
  ℕ, zero, suc, ◌+◌, ◌-◌, ◌*◌, ◌/◌, ◌%◌, Text, List, [], ◌∷◌, Bool, true, false, not, ◌&&◌, ◌||◌,
  Option, none, some, ltb, leb, ◌==◌, text_eq, if◌then◌else◌, length,
}
use content_platform.GoTime.{Time, second, year_zero}
use content_platform.GoStrings.{bytes}
use content_platform.Token.Decimal.{is_digit}
pub mod Bounds

-- `raw[index]`
unfoldable pub at : ℕ → List ℕ → Option ℕ
at index [] = none
at zero (c ∷ s) = some c
at (suc index) (c ∷ s) = at index s

-- `raw[index:]`
unfoldable pub drop : ℕ → List ℕ → List ℕ
drop index [] = []
drop zero (c ∷ s) = c ∷ s
drop (suc index) (c ∷ s) = drop index s

-- A test of the byte at an index, and then, where it holds, the tests after it.
unfoldable pub check : (ℕ → Bool) → Option ℕ → Option Bool → Option Bool
check test none rest = none
check test (some c) rest = if test c then rest else some false

-- twoDigits, and the number of the digits
unfoldable pub two_digits : ℕ → ℕ → Bool
two_digits left right = is_digit left && is_digit right

abbrev pub number : ℕ → ℕ → ℕ
number left right = 10 * (left - b'0') + (right - b'0')

-- What follows a read, which is `none` where the read is out of range.
unfoldable pub read : {A B : Type 0} → Option A → (A → Option B) → Option B
read none next = none
read (some a) next = next a

-- `raw[index:]`, which is out of range behind the end
unfoldable pub slice : ℕ → List ℕ → Option (List ℕ)
unfolding drop
slice index raw = if leb index (length raw) then some (drop index raw) else none

-- Two digits of `zone`, and then the tests of their number.
unfoldable pub zone_digits : ℕ → ℕ → List ℕ → (ℕ → Option Bool) → Option Bool
unfolding read two_digits
zone_digits left right zone next =
    read (at left zone)
      (λ a. read (at right zone) (λ b. if two_digits a b then next (number a b) else some false))

-- The tests of `zone`: "Z", or six bytes that give a sign, an hour up to 23 and a minute up to 59.
unfoldable pub valid_zone : List ℕ → Option Bool
unfolding check zone_digits
valid_zone zone =
    if text_eq zone (b'Z' ∷ [])
    then some true
    else if not (length zone == 6)
    then some false
    else check (λ sign. sign == b'+' || sign == b'-') (at 0 zone)
        (check (λ colon. colon == b':') (at 3 zone)
          (zone_digits 1 2 zone
            (λ hour. zone_digits 4 5 zone (λ minute. some (leb hour 23 && leb minute 59)))))

-- `for zoneStart < len(raw) && raw[zoneStart] >= '0' && raw[zoneStart] <= '9' { zoneStart++ }`, with the
-- rounds that are left as fuel; `none` too where they run out.
unfoldable pub skip_fraction : ℕ → List ℕ → ℕ → Option ℕ
unfolding read
skip_fraction zero raw zone_start = none
skip_fraction (suc fuel) raw zone_start =
    let rest = skip_fraction fuel raw (suc zone_start) in
    if ltb zone_start (length raw)
    then read (at zone_start raw) (λ c. if is_digit c then rest else some zone_start)
    else some zone_start

-- The tests from the index 19 on.
unfoldable pub valid_tail : List ℕ → Option Bool
unfolding read slice valid_zone skip_fraction
valid_tail raw = read (at 19 raw) (λ c.
    if c == b'.'
    then read (skip_fraction (length raw) raw 20) (λ zone_start.
      if zone_start == 20 then some false else read (slice zone_start raw) valid_zone)
    else read (slice 19 raw) valid_zone)

-- The loop over the indices of the digits.
unfoldable pub digits_at : List ℕ → List ℕ → Option Bool → Option Bool
digits_at [] raw rest = rest
digits_at (index ∷ indices) raw rest = check is_digit (at index raw) (digits_at indices raw rest)

abbrev pub digit_indices : List ℕ
digit_indices = 0 ∷ 1 ∷ 2 ∷ 3 ∷ 5 ∷ 6 ∷ 8 ∷ 9 ∷ 11 ∷ 12 ∷ 14 ∷ 15 ∷ 17 ∷ 18 ∷ []

-- validRFC3339Syntax
unfoldable pub valid_rfc3339_syntax : List ℕ → Option Bool
unfolding digits_at valid_tail
valid_rfc3339_syntax raw =
    let separator =
      λ (c : ℕ) (index : ℕ) (rest : Option Bool). check (λ b. b == c) (at index raw) rest in
    if ltb (length raw) 20
    then some false
    else separator b'-' 4 (
        separator b'-' 7 (
          separator b'T' 10
            (separator b':' 13 (separator b':' 16 (digits_at digit_indices raw (valid_tail raw))))))

-- The number of the digits at the indices.
unfoldable pub number_at : List ℕ → List ℕ → ℕ → ℕ
number_at [] raw n = n
number_at (index ∷ indices) raw n =
    number_at indices raw (elim (at index raw) [ none ↦ n | some c ↦ 10 * n + (c - b'0') ])

unfoldable pub is_leap : ℕ → Bool
is_leap year = (year % 4 == 0) && (not (year % 100 == 0) || (year % 400 == 0))

unfoldable pub days_in : ℕ → ℕ → ℕ
unfolding is_leap
days_in month year =
    if month == 2
    then (if is_leap year then 29 else 28)
    else if (month == 4) || (month == 6) || (month == 9) || (month == 11)
    then 30
    else 31

-- The days of a year before a month.
unfoldable pub days_before : ℕ → ℕ → ℕ
days_before year zero = 0
days_before year (suc zero) = 0
days_before year (suc (suc month)) = days_before year (suc month) + days_in (suc month) year

-- The days from the year 0, a leap year, to a year.
unfoldable pub days_to : ℕ → ℕ
days_to year = 365 * year + (year + 3) / 4 - (year + 99) / 100 + (year + 399) / 400

-- The nanoseconds of a fraction; digits behind the ninth have no unit.
unfoldable pub fraction : ℕ → List ℕ → ℕ
fraction unit [] = 0
fraction unit (c ∷ s) = if is_digit c then (c - b'0') * unit + fraction (unit / 10) s else 0

unfoldable pub fraction_of : List ℕ → ℕ
unfolding fraction
fraction_of [] = 0
fraction_of (c ∷ s) = if c == b'.' then fraction 100000000 s else 0

-- What is behind the digits.
unfoldable pub skip_digits : List ℕ → List ℕ
skip_digits [] = []
skip_digits (c ∷ s) = if is_digit c then skip_digits s else c ∷ s

unfoldable pub zone_of : List ℕ → List ℕ
unfolding skip_digits
zone_of [] = []
zone_of (c ∷ s) = if c == b'.' then skip_digits s else c ∷ s

-- An instant in a zone, as UTC has it.
unfoldable pub in_utc : List ℕ → ℕ → Time
in_utc (sign ∷ a ∷ b ∷ colon ∷ c ∷ d ∷ []) t =
    let offset = (number a b * 3600 + number c d * 60) * second in
    if sign == b'-' then t + offset else t - offset
in_utc _ t = t

-- `time.Parse(time.RFC3339, raw)`, for bytes that validRFC3339Syntax accepts.
unfoldable pub time_parse : List ℕ → Option Time
time_parse raw =
    let year = number_at (0 ∷ 1 ∷ 2 ∷ 3 ∷ []) raw 0 in
    let month = number_at (5 ∷ 6 ∷ []) raw 0 in
    let day = number_at (8 ∷ 9 ∷ []) raw 0 in
    let hour = number_at (11 ∷ 12 ∷ []) raw 0 in
    let minute = number_at (14 ∷ 15 ∷ []) raw 0 in
    let seconds = number_at (17 ∷ 18 ∷ []) raw 0 in
    let days = days_to year + days_before year month + (day - 1) in
    if not (
      leb 1 month
      && leb month 12
      && leb 1 day
      && leb day (days_in month year)
      && leb hour 23
      && leb minute 59
      && leb seconds 59)
    then none
    else some (
        in_utc (zone_of (drop 19 raw)) (
          year_zero
          + (days * 86400 + hour * 3600 + minute * 60 + seconds) * second
          + fraction_of (drop 19 raw)))

unfoldable pub parse_checked : Option Bool → List ℕ → Option Time
parse_checked none raw = none
parse_checked (some false) raw = none
parse_checked (some true) raw = time_parse raw

-- parseStrictRFC3339
unfoldable pub parse_strict_rfc3339 : Text → Option Time
unfolding parse_checked
parse_strict_rfc3339 raw = parse_checked (valid_rfc3339_syntax (bytes raw)) (bytes raw)
