-- ===== src/Relay/Limiter/Bounds.antt =====
-- What holds of a rate limiter between two requests: distinct keys, no more of them than the bound,
-- and no count above the limit.
use nomctl.Prelude.{
  ℕ, ◌≤◌, ◌≡◌, none, some, false, arith, Text, text_eq, length, Option-cases, Bool-cases, inl, inr,
  text_eqb_iff, leb-false→lt,
}
use nomctl.Prelude.Dict.{
  get, put, get-put, Distinct, Distinct-put, Distinct-delete_where, get-delete_where_if,
  length-delete_where, length-put, length-put_known,
}
use nomctl.Time.{Time}
use nomctl.Relay.Limiter.{
  Count, RateLimiter, limiter_max_keys, new_rate_limiter, count_or_zero, expired, sweep, counted,
  count_request, allow, is_full,
}

pub record IsValid (r : RateLimiter) : Type 0 where
  pub distinct : Distinct r.counts
  pub few_keys : length r.counts ≤ limiter_max_keys
  pub capped : (k : Text) (c : Count) → get k r.counts ≡ some c → c.n ≤ r.limit

-- A new limiter is valid.
pub new_rate_limiter-IsValid : (per_minute : ℕ) → IsValid (new_rate_limiter per_minute)
unfolding new_rate_limiter get
new_rate_limiter-IsValid per_minute = record {
  distinct = tt;
  few_keys = omega arith;
  capped = λ k c p. cc;
}

pub limit-sweep : (now : Time) (r : RateLimiter) → (sweep now r).limit ≡ r.limit
unfolding sweep
limit-sweep now r = ground arith

pub counted_capped :
    (now : Time) (limit : ℕ) (c : Count) → c.n ≤ limit → (counted now limit c).1.n ≤ limit
unfolding counted
counted_capped now limit c h = ground arith

pub sweep-IsValid : (now : Time) (r : RateLimiter) → IsValid r → IsValid (sweep now r)
unfolding sweep
sweep-IsValid now r v =
    let p = λ (_ : Text) (c : Count). expired now c in
    record {
      distinct = ground (arith, v.distinct, Distinct-delete_where p r.counts v.distinct);
      few_keys = ground (arith, v.few_keys, length-delete_where p r.counts);
      capped = λ k c. ground (arith, v.capped k c, get-delete_where_if p k r.counts v.distinct);
    }

-- A write for the key of the request, when the map has room for it or holds it already.
count_request-IsValid :
    (now : Time) (key : Text) (c : Count) (r : RateLimiter)
    → c.n ≤ r.limit
    → ((b : Count) → length (put key b r.counts) ≤ limiter_max_keys)
    → IsValid r
    → IsValid (count_request now key c r).1
unfolding count_request
count_request-IsValid now key c r small room v =
    let b = (counted now r.limit c).1 in
    record {
      distinct = Distinct-put key b r.counts v.distinct;
      few_keys = room b;
      capped = λ k a. ground (
        arith,
        v.capped k a,
        get-put key k b r.counts,
        text_eqb_iff key k,
        counted_capped now r.limit c small,
      );
    }

-- A key that is not there is written only if the map has room.
count_new-IsValid :
    (now : Time) (key : Text) (r : RateLimiter)
    → is_full r ≡ false
    → IsValid r
    → IsValid (count_request now key (count_or_zero none) r).1
count_new-IsValid now key r room v =
    count_request-IsValid now key (count_or_zero none) r (omega arith)
      (λ b. omega (arith, length-put key b r.counts, leb-false→lt _ _ room)) v

-- Every request leaves a valid limiter valid: the map never holds more than `limiter_max_keys` keys,
-- and no count passes the limit.
pub allow-IsValid :
    (now : Time) (key : Text) (r : RateLimiter) → IsValid r → IsValid (allow now key r).1
unfolding allow
allow-IsValid now key r v = elim (Option-cases (get key r.counts)) [
  | inl new ↦ rw new (elim (Bool-cases (is_full r)) [
    | inr room ↦ rw room (count_new-IsValid now key r room v)
    | inl full ↦ rw full (elim (Bool-cases (is_full (sweep now r))) [
      | inr room ↦ rw room (count_new-IsValid now key _ room (sweep-IsValid now r v))
      | inl full' ↦ rw full' (sweep-IsValid now r v)
    ])
  ])
  | inr (c, known) ↦ rw known (
      count_request-IsValid now key c r (v.capped key c known)
        (λ b. rw (length-put_known key b c r.counts known) v.few_keys) v)
]
