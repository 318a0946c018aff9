-- ===== src/Relay/Limiter.antt =====
-- The rate limiter of internal/relay/server.go: a fixed one-minute window for each key, and a bound
-- on the number of keys. The clock's reading is an argument of `allow`.
pub mod Bounds
pub mod Window
use nomctl.Prelude.{
  ℕ, ◌+◌, ◌-◌, Bool, true, false, not, ◌&&◌, Option, none, some, [], Text, text_eq, leb, length,
  if◌then◌else◌,
}
use nomctl.Prelude.Dict.{Dict, get, put, delete_where}
use nomctl.Time.{Time, minute}

pub record Count : Type 0 where
  pub window : Time
  pub n : ℕ

pub record RateLimiter : Type 0 where
  pub limit : ℕ
  pub last_sweep : Time
  pub counts : Dict Text Count

abbrev pub limiter_max_keys : ℕ
limiter_max_keys = 10000

unfoldable pub new_rate_limiter : ℕ → RateLimiter
new_rate_limiter per_minute = record { limit = per_minute; last_sweep = 0; counts = [] }

abbrev pub is_none {ℓ} : {A : Type ℓ} → Option A → Bool
is_none none = true
is_none (some _) = false

-- The zero value that a missing key reads as.
abbrev pub count_or_zero : Option Count → Count
count_or_zero none = record { window = 0; n = 0 }
count_or_zero (some c) = c

-- `now.Sub(v.window) >= time.Minute`
abbrev pub expired : Time → Count → Bool
expired now v = leb minute (now - v.window)

unfoldable pub sweep : Time → RateLimiter → RateLimiter
sweep now r =
    if leb minute (now - r.last_sweep)
    then record r { last_sweep = now; counts = delete_where (λ _ v. expired now v) r.counts }
    else r

-- The window of the key, started anew if it is over, and the test of its count: the answer, and what
-- is written for the key.
unfoldable pub counted : Time → ℕ → Count → Bool × Count
counted now limit c =
    let c' : Count = if expired now c then record { window = now; n = 0 } else c in
    if leb limit c'.n then (false, c') else (true, record c' { n = c'.n + 1 })

unfoldable pub count_request : Time → Text → Count → RateLimiter → Bool × RateLimiter
count_request now key c r =
    let (ok, c') = counted now r.limit c in (ok, record r { counts = put key c' r.counts })

abbrev pub is_full : RateLimiter → Bool
is_full r = leb limiter_max_keys (length r.counts)

unfoldable pub allow : Time → Text → RateLimiter → Bool × RateLimiter
allow now key r =
    let known = get key r.counts in
    let c = count_or_zero known in
    if is_none known && is_full r
    then (let r' = sweep now r in if is_full r' then (false, r') else count_request now key c r')
    else count_request now key c r
