-- ===== src/Relay/Limiter/Window.antt =====
-- How many requests of one key a limiter admits over a stretch of time.
use nomctl.Prelude.{
  ℕ, ◌+◌, ◌-◌, ◌*◌, ◌≤◌, ◌<◌, ◌≡◌, Option, none, some, arith, Text, text_eq, leb, text_eqb_iff,
  List, [], ◌∷◌, ◌==◌, ◌&&◌, if◌then◌else◌,
}
use nomctl.Prelude.Dict.{get, get-put, get-delete_where_if}
use nomctl.Time.{Time, minute}
use nomctl.Relay.Limiter.{
  Count, RateLimiter, count_or_zero, expired, sweep, counted, count_request, allow,
}
use nomctl.Relay.Limiter.Bounds.{IsValid, allow-IsValid, limit-sweep}

-- The requests in order, each with the clock's reading and its key; how many of `k` are admitted.
unfoldable pub admitted : Text → RateLimiter → List (Time × Text) → ℕ
admitted k r [] = 0
admitted k r ((now, key) ∷ calls) =
    let (ok, r') = allow now key r in (if ok && key == k then 1 else 0) + admitted k r' calls

-- Every clock reading lies in the minute that starts at `t₀`.
abbrev pub InMinute : Time → List (Time × Text) → Type 0
InMinute t₀ [] = Unit
InMinute t₀ ((now, key) ∷ calls) = (t₀ ≤ now) × (now < t₀ + minute) × InMinute t₀ calls

-- How many more requests of a key can be admitted in that minute, by the key's entry.
abbrev pub budget : Time → ℕ → Option Count → ℕ
budget t₀ limit none = limit
budget t₀ limit (some c) = if leb t₀ c.window then limit - c.n else limit + (limit - c.n)

module _ (t₀ now : Time) (old : minute ≤ t₀) (from : t₀ ≤ now) (upto : now < t₀ + minute) where
  counted-budget :
      (limit : ℕ) (o : Option Count)
      → (if (counted now limit (count_or_zero o)).0 then 1 else 0)
          + budget t₀ limit (some (counted now limit (count_or_zero o)).1)
        ≤ budget t₀ limit o
  unfolding counted
  counted-budget limit o = ground arith

  budget-count_request :
      (k key : Text) (r : RateLimiter)
      → let (ok, r') = count_request now key (count_or_zero (get key r.counts)) r in
        (if ok && key == k then 1 else 0) + budget t₀ r'.limit (get k r'.counts)
        ≤ budget t₀ r.limit (get k r.counts)
  unfolding count_request
  budget-count_request k key r = ground (
    arith,
    text_eqb_iff key k,
    counted-budget r.limit (get key r.counts),
    get-put key k (counted now r.limit (count_or_zero (get key r.counts))).1 r.counts,
  )

  budget-sweep :
      (k : Text) (r : RateLimiter)
      → IsValid r
      → budget t₀ r.limit (get k (sweep now r).counts) ≤ budget t₀ r.limit (get k r.counts)
  unfolding sweep
  budget-sweep k r v =
      ground
        (arith, get-delete_where_if (λ (_ : Text) (c : Count). expired now c) k r.counts v.distinct)

  limit-allow : (key : Text) (r : RateLimiter) → (allow now key r).1.limit ≡ r.limit
  unfolding allow count_request
  limit-allow key r = ground (arith, limit-sweep now r)

  sweep-get-none :
      (k : Text) (r : RateLimiter)
      → IsValid r
      → get k r.counts ≡ none
      → get k (sweep now r).counts ≡ none
  unfolding sweep
  sweep-get-none k r v h =
      ground
        (arith, get-delete_where_if (λ (_ : Text) (c : Count). expired now c) k r.counts v.distinct)

  budget-allow :
      (k key : Text) (r : RateLimiter)
      → IsValid r
      → let (ok, r') = allow now key r in
        (if ok && key == k then 1 else 0) + budget t₀ r'.limit (get k r'.counts)
        ≤ budget t₀ r.limit (get k r.counts)
  unfolding allow
  budget-allow k key r v = ground (
    arith,
    budget-count_request k key r,
    budget-count_request k key (sweep now r),
    budget-sweep k r v,
    limit-sweep now r,
    sweep-get-none key r v,
  )

module _ (t₀ : Time) (old : minute ≤ t₀) (k : Text) where
  admitted-le-budget :
      (r : RateLimiter) (calls : List (Time × Text))
      → IsValid r
      → InMinute t₀ calls
      → admitted k r calls ≤ budget t₀ r.limit (get k r.counts)
  unfolding admitted
  admitted-le-budget r [] v h = omega arith
  admitted-le-budget r ((now, key) ∷ calls) v (from, upto, rest) = omega (
    arith,
    budget-allow t₀ now old from upto k key r v,
    admitted-le-budget (allow now key r).1 calls (allow-IsValid now key r v) rest,
  )

  -- From a valid limiter, of requests whose clock readings lie in one minute, in any order, those of
  -- one key are admitted at most twice `limit` times. The minute starts at least a minute after the
  -- zero time.
  pub admitted-le_twice :
      (r : RateLimiter) (calls : List (Time × Text))
      → IsValid r
      → InMinute t₀ calls
      → admitted k r calls ≤ 2 * r.limit
  admitted-le_twice r calls v h = ground (arith, admitted-le-budget r calls v h)

  -- From a valid limiter in which the key's window began no earlier than a minute, of requests whose
  -- clock readings lie in that minute, the admitted ones of the key and those already counted are
  -- together at most `limit`. The minute starts at least a minute after the zero time.
  pub admitted-le_limit :
      (r : RateLimiter) (calls : List (Time × Text)) (c : Count)
      → IsValid r
      → InMinute t₀ calls
      → get k r.counts ≡ some c
      → t₀ ≤ c.window
      → c.n + admitted k r calls ≤ r.limit
  admitted-le_limit r calls c v h known fresh =
      ground (arith, admitted-le-budget r calls v h, v.capped k c known)
