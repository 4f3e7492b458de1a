-- ===== src/GoTime.antt =====
-- The part of Go's package time that the program uses. A time.Time is the number of nanoseconds
-- since the 1st of January of the year -292277022400 in UTC, where a cycle of 400 years begins, so
-- the order of instants is the order of numbers. Earlier instants are not modelled. The location is
-- not kept: the program calls UTC before it reads a field, and compares instants.
use content_platform.Prelude.{
  ℕ, ◌+◌, ◌-◌, ◌*◌, ◌/◌, ◌%◌, ◌≤◌, ◌<◌, ◌≡◌, Bool, true, false, ◌&&◌, arith, ltb, leb, ◌==◌,
}

abbrev pub Time : Type 0
Time = ℕ

-- time.Second, in nanoseconds.
abbrev pub second : ℕ
second = 1000000000

-- 730692556 cycles of 400 years, of 146097 days each, lie before the year 0.
abbrev year_zero_seconds : ℕ
year_zero_seconds = 730692556 * 146097 * 86400

-- The year 0 is a leap year: 366 days to the zero value of time.Time, 3652425 to the year 10000.
abbrev zero_time : Time
zero_time = (year_zero_seconds + 31622400) * 1000000000

abbrev pub year_zero : Time
year_zero = year_zero_seconds * 1000000000

abbrev year_ten_thousand : Time
year_ten_thousand = (year_zero_seconds + 315569520000) * 1000000000

-- `t.IsZero()`
unfoldable pub is_zero : Time → Bool
is_zero t = t == zero_time

-- `year := t.Year(); year >= 0 && year <= 9999`
unfoldable pub year_in_range : Time → Bool
year_in_range t = leb year_zero t && ltb t year_ten_thousand

-- `t.After(u)`
unfoldable pub is_after : Time → Time → Bool
is_after t u = ltb u t

-- `t.Before(u)`
unfoldable pub is_before : Time → Time → Bool
is_before t u = ltb t u

-- `t.Equal(u)`
unfoldable pub time_eq : Time → Time → Bool
time_eq t u = t == u

-- `t.Nanosecond()`
unfoldable pub nanosecond : Time → ℕ
nanosecond t = t % second

-- `t.Truncate(time.Second)`: the start of the second, since the count starts with one.
unfoldable pub truncate_second : Time → Time
truncate_second t = t - t % second

-- `t.Unix() - u.Unix()`, where `u` is not after `t`.
unfoldable pub unix_difference : Time → Time → ℕ
unix_difference t u = t / second - u / second

pub is_after_sound : (t u : Time) → is_after t u ≡ true → u < t
unfolding is_after
is_after_sound t u h = ground arith

pub is_after-false : (t u : Time) → is_after t u ≡ false → t ≤ u
unfolding is_after
is_after-false t u h = ground arith

pub time_eq_sound : (t u : Time) → time_eq t u ≡ true → t ≡ u
unfolding time_eq
time_eq_sound t u h = ground arith

pub truncate_second-le : (t : Time) → truncate_second t ≤ t
unfolding truncate_second
truncate_second-le t = omega arith

-- Truncated instants that differ are at least a second apart.
pub truncate_second-whole : (t : Time) → truncate_second t % second ≡ 0
unfolding truncate_second
truncate_second-whole t = omega arith

pub truncate_second_idem : (t : Time) → truncate_second (truncate_second t) ≡ truncate_second t
unfolding truncate_second
truncate_second_idem t = omega arith

pub truncate_second_mono : (t u : Time) → t ≤ u → truncate_second t ≤ truncate_second u
unfolding truncate_second
truncate_second_mono t u h = omega arith
