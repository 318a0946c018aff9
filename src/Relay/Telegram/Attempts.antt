-- ===== src/Relay/Telegram/Attempts.antt =====
-- Which attempts a call makes.
use nomctl.Prelude.{
  ℕ, zero, suc, ◌+◌, ◌≤◌, ◌≡◌, ◌⊎◌, refl, inl, inr, Bool, false, ◌&&◌, List, [], ◌∷◌, Text, nat_eqb,
  ltb, length, arith, Result, Bool-cases,
}
use nomctl.Time.{Duration}
use nomctl.Relay.Telegram.{
  Reply, no_answer, answered, CallError, Api, attempts, Next, return, retry, after_answer,
  after_reply, call_loop, call, send_message,
}

-- An answer that means that the request was not processed.
abbrev pub IsUnprocessed : Reply → Type 0
IsUnprocessed no_answer = ⊥
IsUnprocessed (answered a) = (a.status ≡ 429) ⊎ (500 ≤ a.status)

-- Every attempt but the newest was answered in that way.
abbrev pub OnlyUnprocessed : Api → List ℕ → Type 0
OnlyUnprocessed api [] = Unit
OnlyUnprocessed api (a ∷ earlier) = IsUnprocessed (api.reply a) × OnlyUnprocessed api earlier

abbrev pub RepeatsUnprocessed : Api → List ℕ → Type 0
RepeatsUnprocessed api [] = Unit
RepeatsUnprocessed api (a ∷ earlier) = OnlyUnprocessed api earlier

retry→IsUnprocessed :
    (attempt : ℕ) (r : Reply) (e : CallError) (wait : Duration)
    → after_reply false attempt r ≡ retry e wait
    → IsUnprocessed r
unfolding after_reply after_answer
retry→IsUnprocessed attempt no_answer e wait h = absurd (ground arith)
retry→IsUnprocessed attempt (answered a) e wait h = elim (Bool-cases (nat_eqb a.status 429)) [
  | inl limited ↦ inl (ground arith)
  | inr other ↦ inr (ground arith)
]

OnlyUnprocessed→Repeats :
    (api : Api) (tried : List ℕ) → OnlyUnprocessed api tried → RepeatsUnprocessed api tried
OnlyUnprocessed→Repeats api [] h = tt
OnlyUnprocessed→Repeats api (a ∷ tried) h = h.1

Next-cases :
    (n : Next)
    → ((r : Result CallError Text) × (n ≡ return r))
      ⊎ ((e : CallError) × (wait : Duration) × (n ≡ retry e wait))
Next-cases (return r) = inl (r, refl)
Next-cases (retry e wait) = inr (e, wait, refl)

call_loop-RepeatsUnprocessed :
    (api : Api) (left attempt : ℕ) (last_err : CallError) (last_wait : Duration) (tried : List ℕ)
    (waits : List Duration)
    → OnlyUnprocessed api tried
    → RepeatsUnprocessed api (call_loop api false left attempt last_err last_wait tried waits).tried
unfolding call_loop
call_loop-RepeatsUnprocessed api zero attempt last_err last_wait tried waits h =
    OnlyUnprocessed→Repeats api tried h
call_loop-RepeatsUnprocessed api (suc left) attempt last_err last_wait tried waits h =
    elim (Bool-cases (ltb 0 attempt && api.cancelled_at attempt)) [
      | inl gone ↦ rw gone (OnlyUnprocessed→Repeats api tried h)
      | inr here ↦ rw here (elim (Next-cases (after_reply false attempt (api.reply attempt))) [
        | inl (r, e) ↦ rw e h
        | inr (x, wait, e) ↦ rw e (
            call_loop-RepeatsUnprocessed api left (attempt + 1) x wait (attempt ∷ tried) _
              (retry→IsUnprocessed attempt (api.reply attempt) x wait e, h))
      ])
    ]

-- A message is sent again only after an answer that says that it was not processed, a 429 or a 5xx:
-- every attempt but the newest was answered so, whatever Telegram does. A message that was accepted, or
-- that got no answer, is never sent again.
pub send_message-RepeatsUnprocessed : (api : Api) → RepeatsUnprocessed api (send_message api).tried
unfolding send_message call
send_message-RepeatsUnprocessed api =
    call_loop-RepeatsUnprocessed api attempts 0 CallError.transport 0 [] [] tt

call_loop-bound :
    (api : Api) (t : Bool) (left attempt : ℕ) (last_err : CallError) (last_wait : Duration)
    (tried : List ℕ) (waits : List Duration)
    → length (call_loop api t left attempt last_err last_wait tried waits).tried
      ≤ left + length tried
unfolding call_loop
call_loop-bound api t zero attempt last_err last_wait tried waits = omega arith
call_loop-bound api t (suc left) attempt last_err last_wait tried waits =
    elim (Bool-cases (ltb 0 attempt && api.cancelled_at attempt)) [
      | inl gone ↦ rw gone (omega arith)
      | inr here ↦ rw here (elim (Next-cases (after_reply t attempt (api.reply attempt))) [
        | inl (r, e) ↦ rw e (omega arith)
        | inr (x, wait, e) ↦
            rw e
              (omega (arith, call_loop-bound api t left (attempt + 1) x wait (attempt ∷ tried) _))
      ])
    ]

-- A call makes at most four attempts.
pub call-bound : (api : Api) (t : Bool) → length (call api t).tried ≤ 4
unfolding call
call-bound api t = call_loop-bound api t attempts 0 CallError.transport 0 [] []
