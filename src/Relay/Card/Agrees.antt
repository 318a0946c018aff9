-- ===== src/Relay/Card/Agrees.antt =====
-- The card's own renderings against those of internal/metrics/sample.go.
use nomctl.Prelude.{
  ℕ, suc, zero, ◌+◌, ◌*◌, ◌/◌, ◌%◌, ◌≤◌, ◌<◌, ◌≡◌, refl, ap, Bool, true, false, [], ◌∷◌, ◌++◌, Text,
  length, take, drop, ltb, leb, format_nat, arith, Bool-cases, inl, inr,
}
use nomctl.Time.{Duration, second}
use nomctl.Metrics.{groups, commas, human_duration}
use nomctl.Relay.Card.{comma_loop, card_commas, round_second, human_age}

-- From a multiple of three digits on, the two loops agree.
comma_loop-groups :
    (f : ℕ) (later : Bool) (s : Text)
    → length s ≤ f
    → length s % 3 ≡ 0
    → comma_loop later s ≡ groups f later s
unfolding comma_loop groups
comma_loop-groups zero later [] h e = refl
comma_loop-groups (suc f) later [] h e = refl
comma_loop-groups zero later (a ∷ s) h e = absurd (omega arith)
comma_loop-groups (suc f) later (a ∷ []) h e = absurd (omega arith)
comma_loop-groups (suc f) later (a ∷ b ∷ []) h e = absurd (omega arith)
comma_loop-groups (suc f) true (a ∷ b ∷ c ∷ s) h e = ground (arith, comma_loop-groups f true s)
comma_loop-groups (suc f) false (a ∷ b ∷ c ∷ s) h e = ground (arith, comma_loop-groups f true s)

-- The digits in front of the first comma.
comma_loop-prefix :
    (r : ℕ) (t : Text)
    → length t % 3 ≡ r
    → 3 < length t
    → r < 3
    → comma_loop false t ≡ take r t ++ groups (length t) (ltb 0 r) (drop r t)
unfolding comma_loop
comma_loop-prefix zero t e h small = comma_loop-groups (length t) false t (omega arith) e
comma_loop-prefix (suc zero) [] e h small = absurd (omega arith)
comma_loop-prefix (suc zero) (a ∷ t) e h small =
    ap (λ u. a ∷ u) (comma_loop-groups (suc (length t)) true t (omega arith) (omega arith))
comma_loop-prefix (suc (suc zero)) [] e h small = absurd (omega arith)
comma_loop-prefix (suc (suc zero)) (a ∷ []) e h small = absurd (omega arith)
comma_loop-prefix (suc (suc zero)) (a ∷ b ∷ t) e h small =
    let tail : comma_loop true t ≡ groups (suc (suc (length t))) true t =
      comma_loop-groups (suc (suc (length t))) true t (omega arith) (omega arith) in
    ground (arith, tail)
comma_loop-prefix (suc (suc (suc r))) t e h small = absurd (omega arith)

-- The card writes a number as internal/metrics does.
pub card_commas-commas : (n : ℕ) → card_commas n ≡ commas n
unfolding card_commas commas
card_commas-commas n =
    let s = format_nat n in
    elim (Bool-cases (leb (length s) 3)) [
      | inl short ↦ rw short
      | inr long ↦ rw long (comma_loop-prefix (length s % 3) s refl (ground arith) (omega arith))
    ]

-- Rounded to a second, a duration reads on the card as internal/metrics writes it.
pub human_age-human_duration : (d : Duration) → human_age (round_second d) ≡ human_duration d
unfolding human_age round_second human_duration
human_age-human_duration d =
    let total = (d + 500000000) / second in
    let days : total * second / 3600000000000 / 24 ≡ total / 86400 = omega arith in
    let hours : total * second / 3600000000000 % 24 ≡ total / 3600 % 24 = omega arith in
    let mins : total * second / 60000000000 % 60 ≡ total / 60 % 60 = omega arith in
    let secs : total * second / second % 60 ≡ total % 60 = omega arith in
    rw (days, hours, mins, secs)
