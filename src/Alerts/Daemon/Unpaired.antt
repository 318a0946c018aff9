-- ===== src/Alerts/Daemon/Unpaired.antt =====
-- A daemon whose node the relay no longer knows stays silent until new credentials are applied.
use nomctl.Prelude.{
  ◌≡◌, refl, true, false, List, [], ◌∷◌, Text, text_eq, arith, ◌∙◌, inl, inr, Bool-cases, if_cases,
}
use nomctl.Time.{Time}
use nomctl.AlertProto.{AlertRequest, AlertInfo, lookup, info_or_zero}
use nomctl.Alerts.Sample.{Sample}
use nomctl.Alerts.Daemon.{RuleResult, Rule, AlertState, Daemon, Relay, report}
use nomctl.Alerts.Daemon.Reports.{result_of, judged, is_enabled}
use nomctl.Alerts.Daemon.Step.{
  send, keep_state, report_alert, evaluate_rule, evaluate, baseline_rule, baseline_all, announce,
  send_heartbeat, take_sample, step,
}

-- The second daemon is unpaired, and has sent nothing more than the first.
pub record IsSilent (d d' : Daemon) : Type 0 where
  pub unpaired : d'.state.unpaired ≡ true
  pub posted : d'.posted ≡ d.posted

module _ (relay : Relay) where
  send_unpaired :
      (now : Time) (a : AlertRequest) (d : Daemon)
      → d.state.unpaired ≡ true
      → send relay now a d ≡ (false, d)
  unfolding send
  send_unpaired now a d h = ground arith

  report_alert_unpaired :
      (now : Time) (name : Text) (info : AlertInfo) (res : RuleResult) (st : AlertState)
      (d : Daemon)
      → d.state.unpaired ≡ true
      → IsSilent d (report_alert relay now name info res st d)
  unfolding report_alert keep_state
  report_alert_unpaired now name info res st d h =
      let silent = send_unpaired now (report name info now res) d h in
      record { unpaired = ground (arith, silent); posted = ground (arith, silent) }

  evaluate_rule_unpaired :
      (now : Time) (r : Rule) (d : Daemon)
      → d.state.unpaired ≡ true
      → IsSilent d (evaluate_rule relay now r d)
  unfolding evaluate_rule
  evaluate_rule_unpaired now r d h = elim (Bool-cases (is_enabled r d)) [
    | inl on ↦ rw on (
        report_alert_unpaired now r.name (info_or_zero (lookup r.name)) (result_of r d)
          (judged now r d) d h)
    | inr off ↦ rw off (record { unpaired = h; posted = refl })
  ]

  evaluate_unpaired :
      (now : Time) (rs : List Rule) (d : Daemon)
      → d.state.unpaired ≡ true
      → IsSilent d (evaluate relay now rs d)
  unfolding evaluate
  evaluate_unpaired now [] d h = record { unpaired = h; posted = refl }
  evaluate_unpaired now (r ∷ rs) d h =
      let one = evaluate_rule_unpaired now r d h in
      let rest = evaluate_unpaired now rs (evaluate_rule relay now r d) one.unpaired in
      record { unpaired = rest.unpaired; posted = rest.posted ∙ one.posted }

  baseline_rule_unpaired :
      (now : Time) (r : Rule) (d : Daemon)
      → d.state.unpaired ≡ true
      → IsSilent d (baseline_rule relay now r d)
  unfolding baseline_rule
  baseline_rule_unpaired now r d h = record { unpaired = ground arith; posted = ground arith }

  baseline_all_unpaired :
      (now : Time) (rs : List Rule) (d : Daemon)
      → d.state.unpaired ≡ true
      → IsSilent d (baseline_all relay now rs d)
  unfolding baseline_all
  baseline_all_unpaired now [] d h = record { unpaired = h; posted = refl }
  baseline_all_unpaired now (r ∷ rs) d h =
      let one = baseline_rule_unpaired now r d h in
      let rest = baseline_all_unpaired now rs (baseline_rule relay now r d) one.unpaired in
      record { unpaired = rest.unpaired; posted = rest.posted ∙ one.posted }

  announce_unpaired :
      (now : Time) (sample : Sample) (d : Daemon)
      → d.state.unpaired ≡ true
      → IsSilent d (announce relay now sample d)
  unfolding announce send
  announce_unpaired now sample d h = record { unpaired = ground arith; posted = ground arith }

  IsSilent-heartbeat :
      (now : Time) (sample : Sample) (d d' : Daemon)
      → IsSilent d d'
      → IsSilent d (send_heartbeat relay now sample d')
  unfolding send_heartbeat
  IsSilent-heartbeat now sample d d' s = record {
    unpaired = ground (arith, s.unpaired);
    posted = ground (arith, s.unpaired, s.posted);
  }

  -- A step of an unpaired daemon, whatever its rules and the relay would say, sends nothing, not even a
  -- heartbeat, and leaves it unpaired.
  pub step_unpaired :
      (now : Time) (sample : Sample) (d : Daemon)
      → d.state.unpaired ≡ true
      → IsSilent d (step relay now sample d)
  unfolding step
  step_unpaired now sample d h =
      let d1 = take_sample relay now sample d in
      let h1 : d1.state.unpaired ≡ true = unfold take_sample in h in
      let base = baseline_all_unpaired now d1.rules d1 h1 in
      let based = baseline_all relay now d1.rules d1 in
      let told = announce_unpaired now sample based base.unpaired in
      let ran = evaluate_unpaired now d1.rules d1 h1 in
      let kept : d1.posted ≡ d.posted = unfold take_sample in refl in
      IsSilent-heartbeat now sample d _ (
        if_cases (IsSilent d) d1.evaluated (evaluate relay now d1.rules d1)
          (announce relay now sample based)
          (λ _. record { unpaired = ran.unpaired; posted = ran.posted ∙ kept })
          (λ _. record { unpaired = told.unpaired; posted = told.posted ∙ base.posted ∙ kept }))
