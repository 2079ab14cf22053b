-- ===== src/Clock.antt =====
-- Go's `time.Time` and `time.Duration`, in nanoseconds. A time counts from the zero `time.Time` of
-- the year 1, so `time.Time{}` is 0. Readings of the clock lie after the Unix epoch.
use camonitor.Prelude.{ℕ, ◌+◌, ◌-◌, ◌*◌, ◌/◌, ◌≤◌, ◌≡◌, arith, min}

abbrev pub Time : Type 0
Time = ℕ

abbrev pub Duration : Type 0
Duration = ℕ

abbrev pub second : Duration
second = 1000000000

abbrev pub minute : Duration
minute = 60 * second

abbrev pub hour : Duration
hour = 60 * minute

-- 1970-01-01, in seconds of the year 1.
abbrev pub epoch_seconds : ℕ
epoch_seconds = 62135596800

-- `t.Unix()`
abbrev pub unix : Time → ℕ
unix t = t / second - epoch_seconds

-- `t.UnixNano()`
abbrev pub unix_nano : Time → ℕ
unix_nano t = t - epoch_seconds * second

-- `time.Unix(ts, 0)`
abbrev pub from_unix : ℕ → Time
from_unix ts = (ts + epoch_seconds) * second

-- `time.Duration` ends at 2 ^ 63 - 1, some 292 years.
abbrev pub max_duration : Duration
max_duration = 9223372036854775807

-- `t.Sub(u)`, cut off at the longest duration. Where it is negative it is 0 here: the program only
-- asks whether it is below a positive duration.
abbrev pub since : Time → Time → Duration
since t u = min (t - u) max_duration

-- Seconds are kept, what is below a second is lost.
pub from_unix-unix :
    (t : Time) → epoch_seconds * second ≤ t → from_unix (unix t) ≡ t / second * second
from_unix-unix t h = omega arith
