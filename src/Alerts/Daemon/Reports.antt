-- ===== src/Alerts/Daemon/Reports.antt =====
-- What the evaluation of the rules leaves in the daemon's state, and what it sends to the relay.
use nomctl.Prelude.{
  ◌≡◌, ◌≢◌, ◌⊎◌, inl, inr, refl, ◌∙◌, ap, Bool, true, false, not, ◌&&◌, Option, none, some, ◌∷◌,
  Text, text_eq, eqb_refl, eqb_ne, arith, length, Bool-cases, if◌then◌else◌,
}
use nomctl.Prelude.Dict.{Dict, get, put, remove, get-put, get-remove}
use nomctl.Time.{Time}
use nomctl.AlertProto.{AlertRequest, lookup, info_or_zero}
use nomctl.Alerts.Config.{rule_or_zero}
use nomctl.Alerts.Daemon.{
  RuleResult, Rule, AlertState, ClientError, unpaired, alert, Daemon, Relay, next_state, need_send,
  report,
}
use nomctl.Alerts.Daemon.Judge.{firing-next_state, unaccepted, need_send_iff}
use nomctl.Alerts.Daemon.Step.{
  mark_sent, note_error, post, after_alert, send, keep_state, report_alert, evaluate_rule,
}

-- The result of a rule and the state that is to be reported of it.
abbrev pub result_of : Rule → Daemon → RuleResult
result_of r d = r.evaluate d.history (rule_or_zero (get r.name d.cfg.rules))

abbrev pub judged : Time → Rule → Daemon → AlertState
judged now r d =
    next_state (info_or_zero (lookup r.name)) now (result_of r d) (get r.name d.state.alerts)

abbrev pub is_enabled : Rule → Daemon → Bool
is_enabled r d = (rule_or_zero (get r.name d.cfg.rules)).enabled

alerts-note_error :
    (now : Time) (e : ClientError) (d : Daemon) → (note_error now e d).state.alerts ≡ d.state.alerts
unfolding note_error
alerts-note_error now unpaired d = refl
alerts-note_error now (ClientError.other t) d = refl

posted-note_error :
    (now : Time) (e : ClientError) (d : Daemon) → (note_error now e d).posted ≡ d.posted
unfolding note_error
posted-note_error now unpaired d = refl
posted-note_error now (ClientError.other t) d = refl

module _ (relay : Relay) where
  alerts-after_alert :
      (now : Time) (r : Option ClientError × Daemon)
      → (after_alert relay now r).1.state.alerts ≡ r.1.state.alerts
  unfolding after_alert
  alerts-after_alert now (none, d) = refl
  alerts-after_alert now (some e, d) = alerts-note_error now e d

  posted-after_alert :
      (now : Time) (r : Option ClientError × Daemon)
      → (after_alert relay now r).1.posted ≡ r.1.posted
  unfolding after_alert
  posted-after_alert now (none, d) = refl
  posted-after_alert now (some e, d) = posted-note_error now e d

  accepted-after_alert :
      (now : Time) (r : Option ClientError × Daemon)
      → (after_alert relay now r).0 ≡ true
      → r.0 ≡ none
  unfolding after_alert
  accepted-after_alert now (none, d) h = refl
  accepted-after_alert now (some e, d) h = cc

  alerts-send :
      (now : Time) (a : AlertRequest) (d : Daemon)
      → (send relay now a d).1.state.alerts ≡ d.state.alerts
  unfolding send post
  alerts-send now a d = ground (
    arith,
    alerts-after_alert now
        (relay.answer (length d.posted) (alert a), record d { posted = alert a ∷ d.posted }),
  )

  posted-send :
      (now : Time) (a : AlertRequest) (d : Daemon)
      → (send relay now a d).1.posted ≡ (if d.state.unpaired then d.posted else alert a ∷ d.posted)
  unfolding send post
  posted-send now a d = ground (
    arith,
    posted-after_alert now
        (relay.answer (length d.posted) (alert a), record d { posted = alert a ∷ d.posted }),
  )

  -- The relay accepted the request if it was sent and answered without an error.
  accepted-send :
      (now : Time) (a : AlertRequest) (d : Daemon)
      → (send relay now a d).0 ≡ true
      → (d.state.unpaired ≡ false) × (relay.answer (length d.posted) (alert a) ≡ none)
  unfolding send post
  accepted-send now a d h = ground (
    arith,
    accepted-after_alert now
        (relay.answer (length d.posted) (alert a), record d { posted = alert a ∷ d.posted }),
  )

  alerts-keep_state :
      (now : Time) (name : Text) (st : AlertState) (r : Bool × Daemon)
      → (keep_state relay now name st r).state.alerts
        ≡ put name (mark_sent now r.0 st) r.1.state.alerts
  unfolding keep_state
  alerts-keep_state now name st (accepted, d) = refl

  -- Whether the rule's alert is reported in this evaluation, with which request, and whether the relay
  -- accepts it.
  abbrev pub reports : Time → Rule → Daemon → Bool
  reports now r d = need_send (info_or_zero (lookup r.name)) now (result_of r d) (judged now r d)

  abbrev pub request_of : Time → Rule → Daemon → AlertRequest
  request_of now r d = report r.name (info_or_zero (lookup r.name)) now (result_of r d)

  abbrev pub accepted : Time → Rule → Daemon → Bool
  accepted now r d = (send relay now (request_of now r d) d).0

  -- What an enabled rule leaves under its name.
  pub kept_state : Time → Rule → Daemon → AlertState
  kept_state now r d =
      if reports now r d then mark_sent now (accepted now r d) (judged now r d) else judged now r d

  alerts-evaluate_rule :
      (now : Time) (r : Rule) (d : Daemon)
      → is_enabled r d ≡ true
      → (evaluate_rule relay now r d).state.alerts ≡ put r.name (kept_state now r d) d.state.alerts
  unfolding evaluate_rule report_alert kept_state
  alerts-evaluate_rule now r d on =
      let st = mark_sent now (accepted now r d) (judged now r d) in
      rw on (elim (Bool-cases (reports now r d)) [
        | inl need ↦ rw need (
            alerts-keep_state now r.name (judged now r d) (send relay now (request_of now r d) d)
            ∙ ap (λ (m : Dict Text AlertState). put r.name st m)
                (alerts-send now (request_of now r d) d))
        | inr quiet ↦ rw quiet
      ])

  posted-keep_state :
      (now : Time) (name : Text) (st : AlertState) (r : Bool × Daemon)
      → (keep_state relay now name st r).posted ≡ r.1.posted
  unfolding keep_state
  posted-keep_state now name st (accepted, d) = refl

  -- An evaluation sends the rule's report exactly if the rule is enabled, its alert is to be reported
  -- and the node is paired; it sends nothing else.
  pub posted-evaluate_rule :
      (now : Time) (r : Rule) (d : Daemon)
      → (evaluate_rule relay now r d).posted ≡ (
          if is_enabled r d && reports now r d && not d.state.unpaired
          then alert (request_of now r d) ∷ d.posted
          else d.posted)
  unfolding evaluate_rule report_alert
  posted-evaluate_rule now r d = ground (
    arith,
    posted-send now (request_of now r d) d,
    posted-keep_state now r.name (judged now r d) (send relay now (request_of now r d) d),
  )

  firing-kept_state :
      (now : Time) (r : Rule) (d : Daemon) → (kept_state now r d).firing ≡ (result_of r d).firing
  unfolding kept_state
  firing-kept_state now r d =
      let info = info_or_zero (lookup r.name) in
      ground (arith, firing-next_state info now (result_of r d) (get r.name d.state.alerts))

  acked-kept_state :
      (now : Time) (r : Rule) (d : Daemon)
      → (kept_state now r d).acked ≡ true
      → ((accepted now r d) ≡ true) ⊎ ((judged now r d).acked ≡ true)
  unfolding kept_state
  acked-kept_state now r d h = ground arith

  -- After an evaluation there is a state for the alert of an enabled rule, and it fires exactly if
  -- the rule's result does.
  pub evaluate_rule_firing :
      (now : Time) (r : Rule) (d : Daemon)
      → is_enabled r d ≡ true
      → (st : AlertState) × (get r.name (evaluate_rule relay now r d).state.alerts ≡ some st)
        × (st.firing ≡ (result_of r d).firing)
  evaluate_rule_firing now r d on = (
    kept_state now r d,
    rw (alerts-evaluate_rule now r d on) (rw get-put (rw eqb_refl)),
    firing-kept_state now r d,
  )

  alerts-evaluate_rule_off :
      (now : Time) (r : Rule) (d : Daemon)
      → is_enabled r d ≡ false
      → (evaluate_rule relay now r d).state.alerts ≡ remove r.name d.state.alerts
  unfolding evaluate_rule
  alerts-evaluate_rule_off now r d off = rw off

  -- An evaluation of one rule leaves the alerts of the others as they are.
  pub evaluate_rule_frame :
      (now : Time) (r : Rule) (d : Daemon) (other : Text)
      → r.name ≢ other
      → get other (evaluate_rule relay now r d).state.alerts ≡ get other d.state.alerts
  evaluate_rule_frame now r d other ne = elim (Bool-cases (is_enabled r d)) [
    | inl on ↦ rw (alerts-evaluate_rule now r d on) (rw get-put (rw (eqb_ne r.name other ne)))
    | inr off ↦
        rw (alerts-evaluate_rule_off now r d off) (rw get-remove (rw (eqb_ne r.name other ne)))
  ]

  -- An alert that the relay has not accepted is reported at the next evaluation of its rule, for as long
  -- as the rule is enabled and the node is paired.
  pub evaluate_rule_retry :
      (now : Time) (r : Rule) (d : Daemon) (prev : AlertState)
      → is_enabled r d ≡ true
      → d.state.unpaired ≡ false
      → get r.name d.state.alerts ≡ some prev
      → prev.acked ≡ false
      → (evaluate_rule relay now r d).posted ≡ alert (request_of now r d) ∷ d.posted
  evaluate_rule_retry now r d prev on paired known fresh =
      let info = info_or_zero (lookup r.name) in
      let due = (need_send_iff info now (result_of r d) prev).1 (unaccepted fresh) in
      ground (arith, posted-evaluate_rule now r d, known, due)

  -- A report that is accepted leaves the alert acknowledged, with the time of the report.
  pub evaluate_rule-accepted :
      (now : Time) (r : Rule) (d : Daemon)
      → is_enabled r d ≡ true
      → reports now r d ≡ true
      → accepted now r d ≡ true
      → (st : AlertState) × (get r.name (evaluate_rule relay now r d).state.alerts ≡ some st)
        × (st.acked ≡ true)
        × (st.last_sent ≡ now)
  unfolding kept_state
  evaluate_rule-accepted now r d on due good = (
    kept_state now r d,
    rw (alerts-evaluate_rule now r d on) (rw get-put (rw eqb_refl)),
    rw (due, good),
    rw (due, good),
  )
