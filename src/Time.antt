-- ===== src/Time.antt =====
-- Go's `time.Time` and `time.Duration`. A time is the number of nanoseconds since the zero time, and
-- a duration a number of nanoseconds. `t.Sub(u)` is written `t - u`, which stops at 0: every use
-- compares the difference with a positive bound, so that a negative difference and 0 agree.
use nomctl.Prelude.{ℕ, Bool, nat_eqb}

abbrev pub Time : Type 0
Time = ℕ

abbrev pub Duration : Type 0
Duration = ℕ

abbrev pub second : Duration
second = 1000000000

abbrev pub minute : Duration
minute = 60000000000

abbrev pub hour : Duration
hour = 3600000000000

abbrev pub is_zero : Time → Bool
is_zero t = nat_eqb t 0
