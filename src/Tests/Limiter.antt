-- ===== src/Tests/Limiter.antt =====
-- The rate limiter at three requests of one address and one of another.
use nomctl.Prelude.{◌+◌, ◌*◌, ◌≤◌, ◌≡◌, refl, some, List, [], ◌∷◌, Text, bytes, text_eq, arith}
use nomctl.Prelude.Dict.{get, put}
use nomctl.Time.{Time, minute}
use nomctl.Relay.Limiter.{RateLimiter, new_rate_limiter, allow, counted, count_request}
use nomctl.Relay.Limiter.Bounds.{IsValid, new_rate_limiter-IsValid, allow-IsValid}
use nomctl.Relay.Limiter.Window.{admitted, InMinute, admitted-le_twice}

abbrev calls : List (Time × Text)
calls =
    (2 * minute + 1, bytes "a")
    ∷ (2 * minute + 2, bytes "b")
    ∷ (2 * minute + 2, bytes "a")
    ∷ (2 * minute + 5, bytes "a")
    ∷ []

calls-InMinute : InMinute (2 * minute) calls
calls-InMinute = (
  omega arith,
  omega arith,
  (omega arith, omega arith, (omega arith, omega arith, (omega arith, omega arith, tt))),
)

-- Two of the three are admitted.
calls-admitted : admitted (bytes "a") (new_rate_limiter 2) calls ≡ 2
unfolding admitted new_rate_limiter allow counted count_request get put
calls-admitted = refl

allow-IsValid_example : IsValid (allow (2 * minute) (bytes "a") (new_rate_limiter 2)).1
allow-IsValid_example =
    allow-IsValid (2 * minute) (bytes "a") (new_rate_limiter 2) (new_rate_limiter-IsValid 2)

admitted-le_twice_example : admitted (bytes "a") (new_rate_limiter 2) calls ≤ 4
unfolding new_rate_limiter
admitted-le_twice_example =
    admitted-le_twice (2 * minute) (omega arith) (bytes "a") (new_rate_limiter 2) calls
      (new_rate_limiter-IsValid 2) calls-InMinute

-- A limiter that has counted one request of the address in this minute.
abbrev counted_one : RateLimiter
counted_one = (allow (2 * minute) (bytes "a") (new_rate_limiter 2)).1

counted_one_known :
    get (bytes "a") counted_one.counts ≡ some (record { window = 2 * minute; n = 1 })
unfolding new_rate_limiter allow counted count_request get put
counted_one_known = refl

counted_one_limit : counted_one.limit ≡ 2
unfolding new_rate_limiter allow counted count_request get
counted_one_limit = refl
