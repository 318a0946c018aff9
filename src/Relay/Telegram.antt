-- ===== src/Relay/Telegram.antt =====
-- The Bot API client of internal/relay/telegram.go: `call`, with its retries, and `Send`. What
-- Telegram answers to each attempt and whether the caller gives up while waiting are functions of the
-- attempt's number.
pub mod Attempts
use nomctl.Prelude.{
  ℕ, zero, suc, ◌+◌, ◌*◌, ◌^◌, Bool, true, false, not, ◌&&◌, Option, none, some, List, [], ◌∷◌,
  Text, nat_eqb, leb, ltb, Result, ok, err, if◌then◌else◌,
}
use nomctl.Time.{Duration, second}

-- An HTTP answer with the fields of its JSON body; a missing `retry_after` is 0.
pub record Answer : Type 0 where
  pub status : ℕ
  pub api_ok : Bool
  pub result : Text
  pub retry_after : ℕ

-- What happens to an attempt: no answer, or one.
pub data Reply : Type 0 where
  no_answer : Reply
  answered : Answer → Reply

-- `ErrBlocked`; the caller's context ended; or another error.
pub data CallError : Type 0 where
  blocked cancelled transport rate_limited server_error refused : CallError

pub record Api : Type 0 where
  pub reply : ℕ → Reply
  pub cancelled_at : ℕ → Bool

abbrev pub attempts : ℕ
attempts = 4

abbrev pub backoff : ℕ → Duration
backoff attempt = 2 ^ attempt * second

-- What the loop does after an attempt: return, or try again with the last error and a wait.
pub data Next : Type 0 where
  return : Result CallError Text → Next
  retry : CallError → Duration → Next

unfoldable pub after_answer : ℕ → Answer → Next
after_answer attempt a =
    if nat_eqb a.status 200 && a.api_ok
    then return (ok a.result)
    else if nat_eqb a.status 403
    then return (err blocked)
    else if nat_eqb a.status 429
    then retry rate_limited (if ltb 0 a.retry_after then a.retry_after * second else second)
    else if leb 500 a.status
    then retry server_error (backoff attempt)
    else return (err refused)

unfoldable pub after_reply : Bool → ℕ → Reply → Next
after_reply retry_transport attempt (answered a) = after_answer attempt a
after_reply retry_transport attempt no_answer =
    if retry_transport then retry transport (backoff attempt) else return (err transport)

-- What a call did: its result, the attempts that were made, newest first, and the waits before them.
pub record Outcome : Type 0 where
  pub result : Result CallError Text
  pub tried : List ℕ
  pub waits : List Duration

-- The loop from `attempt`, with `left` attempts left; the first waits for nothing.
unfoldable pub call_loop :
    Api → Bool → ℕ → ℕ → CallError → Duration → List ℕ → List Duration → Outcome
call_loop api retry_transport zero attempt last_err last_wait tried waits = record {
  result = err last_err;
  tried = tried;
  waits = waits;
}
call_loop api retry_transport (suc left) attempt last_err last_wait tried waits =
    let waited = if ltb 0 attempt then last_wait ∷ waits else waits in
    if ltb 0 attempt && api.cancelled_at attempt
    then record { result = err cancelled; tried = tried; waits = waited }
    else (elim (after_reply retry_transport attempt (api.reply attempt)) [
      | return r ↦ record { result = r; tried = attempt ∷ tried; waits = waited }
      | retry e wait ↦
          call_loop api retry_transport left (attempt + 1) e wait (attempt ∷ tried) waited
    ])

unfoldable pub call : Api → Bool → Outcome
call api retry_transport = call_loop api retry_transport attempts 0 transport 0 [] []

-- `sendMessage` is not repeated where Telegram gave no answer.
unfoldable pub send_message : Api → Outcome
send_message api = call api false
