-- ===== src/Token/UnixTime.antt =====
-- Seconds as Go's package time keeps them: int64, from the year 1 inside a time.Time and from 1970 in
-- Unix. An int64 x stands as x + 2^63 here, and sums wrap.
use content_platform.Prelude.{ℕ, ◌+◌, ◌-◌, ◌*◌, ◌/◌, ◌%◌, ◌≡◌, Bool, true, arith, ltb}
use content_platform.GoTime.{Time, second, year_in_range}

abbrev pub wrap : ℕ
wrap = 18446744073709551616

-- unixToInternal: the seconds from the year 1 to 1970.
abbrev pub unix_to_internal : ℕ
unix_to_internal = 62135596800

-- The start of the count of Time, 9223371966579724800 seconds before the year 1.
abbrev pub time_origin : ℕ
time_origin = 9223372036854775808 - (730692556 * 146097 * 86400 + 31622400)

-- The seconds of an instant since the year 1.
unfoldable pub internal_seconds : Time → ℕ
internal_seconds t = (t / second + time_origin) % wrap

-- `t.Unix()`
unfoldable pub unix : Time → ℕ
unix t = (internal_seconds t + (wrap - unix_to_internal)) % wrap

-- `time.Unix(seconds, 0)`, by its seconds since the year 1.
unfoldable pub from_unix : ℕ → ℕ
from_unix u = (u + unix_to_internal) % wrap

-- `t.After(u)` where `t` is a whole second.
unfoldable pub whole_after : ℕ → Time → Bool
whole_after t u = ltb (internal_seconds u) t

pub from_unix-unix : (t : Time) → from_unix (unix t) ≡ internal_seconds t
unfolding from_unix unix internal_seconds
from_unix-unix t = omega arith

pub internal_seconds-in_range :
    (t : Time) → year_in_range t ≡ true → internal_seconds t ≡ t / second + time_origin
unfolding internal_seconds year_in_range
internal_seconds-in_range t h = ground arith
