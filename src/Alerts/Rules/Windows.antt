-- ===== src/Alerts/Rules/Windows.antt =====
-- What a rule that looks at a window of the history shows when it fires.
use nomctl.Prelude.{
  ℕ, ◌+◌, ◌-◌, ◌≤◌, ◌<◌, ◌≡◌, ◌⊎◌, refl, inl, inr, Bool, true, false, not, ◌&&◌, List, [], ◌∷◌,
  bytes, text_eq, nat_eq, ◌==◌, ltb, all, arith, Bool-cases,
}
use nomctl.Time.{Duration}
use nomctl.Metrics.{Floats}
use nomctl.Alerts.Sample.{Sample}
use nomctl.Alerts.Config.{RuleConfig}
use nomctl.Alerts.Daemon.{RuleResult, drop_before}
use nomctl.Alerts.Rules.History.{newest, since, covers, has_rollover, after_rollover}
use nomctl.Alerts.Rules.{is_active, minutes, judge_window}
use nomctl.Alerts.Rules.Lasting.{sub64, rpc_unreachable, momentums_stalled}

-- The sample stands in the history.
abbrev pub IsIn : Sample → List Sample → Type 0
IsIn s [] = ⊥
IsIn s (a ∷ h) = (s ≡ a) ⊎ IsIn s h

all-IsIn :
    (p : Sample → Bool) (h : List Sample) (s : Sample) → all p h ≡ true → IsIn s h → p s ≡ true
all-IsIn p [] s e i = absurd i
all-IsIn p (a ∷ h) s e (inl same) = ground arith
all-IsIn p (a ∷ h) s e (inr i) = all-IsIn p h s (ground arith) i

-- A sample that is not older than the cut is not dropped.
drop_before-IsIn :
    (cut : ℕ) (h : List Sample) (s : Sample) → IsIn s h → cut ≤ s.taken → IsIn s (drop_before cut h)
unfolding drop_before
drop_before-IsIn cut [] s i late = absurd i
drop_before-IsIn cut (a ∷ h) s i late = elim (Bool-cases (ltb a.taken cut)) [
  | inr kept ↦ rw kept i
  | inl old ↦
      rw old
        (elim i [ inl same ↦ absurd (ground arith) | inr i' ↦ drop_before-IsIn cut h s i' late ])
]

since-IsIn :
    (a : Sample) (h : List Sample) (d : Duration) (s : Sample)
    → IsIn s (a ∷ h)
    → (newest a h).taken ≤ s.taken + d
    → IsIn s (since (a ∷ h) d)
unfolding since
since-IsIn a h d s i late = drop_before-IsIn ((newest a h).taken - d) (a ∷ h) s i (omega arith)

judge_window-firing :
    (d : Duration) (win : List Sample) (f : Sample → List Sample → RuleResult)
    → (judge_window d win f).firing ≡ true
    → (a : Sample) × (rest : List Sample) × (win ≡ a ∷ rest)
      × (covers win d ≡ true)
      × ((f a win).firing ≡ true)
judge_window-firing d [] f h = cc
judge_window-firing d (a ∷ rest) f h = elim (Bool-cases (covers (a ∷ rest) d)) [
  | inl long ↦ (a, rest, refl, long, ground arith)
  | inr short ↦ absurd (ground arith)
]

module _ (floats : Floats) where
  -- When `rpc_unreachable` fires, the service was active and RPC did not answer in every sample of the
  -- history that was taken within the configured minutes of the newest one.
  pub rpc_unreachable-firing :
      (a : Sample) (h : List Sample) (cfg : RuleConfig) (s : Sample)
      → (rpc_unreachable floats (a ∷ h) cfg).firing ≡ true
      → IsIn s (a ∷ h)
      → (newest a h).taken
        ≤ s.taken + minutes floats cfg (bytes "rpc_unreachable") (bytes "minutes")
      → (is_active s ≡ true) × (s.node.reachable ≡ false)
  unfolding rpc_unreachable
  rpc_unreachable-firing a h cfg s fired i late =
      let d = minutes floats cfg (bytes "rpc_unreachable") (bytes "minutes") in
      let (b, rest, e, long, holds) = judge_window-firing d (since (a ∷ h) d) _ fired in
      let every : all (λ t. is_active t && not t.node.reachable) (since (a ∷ h) d) ≡ true =
        ground arith in
      let one = all-IsIn _ (since (a ∷ h) d) s every (since-IsIn a h d s i late) in
      (ground arith, ground arith)

  -- When `momentums_stalled` fires, any two samples of the history that were taken within the
  -- configured minutes of the newest one have the same height, and in both the service was active and
  -- RPC answered.
  pub momentums_stalled-firing :
      (a : Sample) (h : List Sample) (cfg : RuleConfig) (s t : Sample)
      → (momentums_stalled floats (a ∷ h) cfg).firing ≡ true
      → IsIn s (a ∷ h)
      → IsIn t (a ∷ h)
      → (newest a h).taken
        ≤ s.taken + minutes floats cfg (bytes "momentums_stalled") (bytes "minutes")
      → (newest a h).taken
        ≤ t.taken + minutes floats cfg (bytes "momentums_stalled") (bytes "minutes")
      → (s.node.current_height ≡ t.node.current_height)
        × ((is_active s ≡ true) × (s.node.reachable ≡ true))
        × ((is_active t ≡ true) × (t.node.reachable ≡ true))
  unfolding momentums_stalled
  momentums_stalled-firing a h cfg s t fired i j late late' =
      let d = minutes floats cfg (bytes "momentums_stalled") (bytes "minutes") in
      let win = since (a ∷ h) d in
      let (b, rest, e, long, holds) = judge_window-firing d win _ fired in
      let every : all
            (λ u. is_active u && u.node.reachable && u.node.current_height == b.node.current_height)
            win
          ≡ true =
        ground arith in
      let one = all-IsIn _ win s every (since-IsIn a h d s i late) in
      let two = all-IsIn _ win t every (since-IsIn a h d t j late') in
      (ground arith, (ground arith, ground arith), (ground arith, ground arith))

no_rollover :
    (a : Sample) (h : List Sample)
    → has_rollover a h ≡ false
    → a.node.pillar.expected ≤ (newest a h).node.pillar.expected
no_rollover a [] e = omega arith
no_rollover a (b ∷ h) e =
    let first : ltb b.node.pillar.expected a.node.pillar.expected ≡ false = ground arith in
    let rest : has_rollover b h ≡ false = ground arith in
    let ih = no_rollover b h rest in ground arith

after_rollover-ascending :
    (h : List Sample) (a : Sample) (win : List Sample)
    → after_rollover h ≡ a ∷ win
    → has_rollover a win ≡ false
unfolding after_rollover
after_rollover-ascending [] a win e = cc
after_rollover-ascending (b ∷ h) a win e = elim (Bool-cases (has_rollover b h)) [
  | inl fell ↦ after_rollover-ascending h a win (rw fell at e)
  | inr rose ↦ (let e' : b ∷ h ≡ a ∷ win = (rw rose at e) in ground arith)
]

-- In the window after the last rollover, the newest expected count, which is below 2 ^ 64, minus
-- the first in uint64 is their difference: it does not wrap.
pub sub64-after_rollover :
    (h : List Sample) (a : Sample) (win : List Sample)
    → after_rollover h ≡ a ∷ win
    → (newest a win).node.pillar.expected < 18446744073709551616
    → sub64 (newest a win).node.pillar.expected a.node.pillar.expected + a.node.pillar.expected
      ≡ (newest a win).node.pillar.expected
sub64-after_rollover h a win e small =
    omega (arith, no_rollover a win (after_rollover-ascending h a win e))
