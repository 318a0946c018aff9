-- ===== src/Alerts/Daemon/Judge.antt =====
-- When the daemon reports an alert.
use nomctl.Prelude.{
  ◌+◌, ◌≤◌, ◌≡◌, ◌≢◌, ◌↔◌, ◌⊎◌, inl, inr, true, false, Option, none, some, [], text_eq,
  text_eqb_iff, arith, Bool-cases,
}
use nomctl.Time.{Time, is_zero}
use nomctl.AlertProto.{AlertInfo}
use nomctl.Alerts.Daemon.{
  RuleResult, AlertState, reminder_every, is_info, bool_eqb, next_state, need_send,
}

-- The state follows the rule, whatever was known before.
pub firing-next_state :
    (info : AlertInfo) (now : Time) (res : RuleResult) (known : Option AlertState)
    → (next_state info now res known).firing ≡ res.firing
unfolding next_state
firing-next_state info now res none = ground arith
firing-next_state info now res (some prev) = ground arith

-- Why an alert of which `prev` is known is reported: the relay has not accepted its value, the value
-- changed, it is informational and fires with a new detail, or it is not and its reminder is due.
pub data Reportable (info : AlertInfo) (now : Time) (res : RuleResult) (prev : AlertState)
    : Type 0 where
  unaccepted : prev.acked ≡ false → Reportable info now res prev
  changed : res.firing ≢ prev.firing → Reportable info now res prev
  new_detail :
      res.firing ≡ true
      → is_info info ≡ true
      → prev.detail ≢ []
      → prev.detail ≢ res.detail
      → Reportable info now res prev
  reminder :
      res.firing ≡ true
      → is_info info ≡ false
      → (prev.last_sent ≡ 0) ⊎ (prev.last_sent + reminder_every ≤ now)
      → Reportable info now res prev

Reportable→need_send :
    (info : AlertInfo) (now : Time) (res : RuleResult) (prev : AlertState)
    → Reportable info now res prev
    → need_send info now res (next_state info now res (some prev)) ≡ true
unfolding next_state need_send
Reportable→need_send info now res prev (unaccepted h) = ground arith
Reportable→need_send info now res prev (changed h) = ground arith
Reportable→need_send info now res prev (new_detail h i j k) =
    ground (arith, text_eqb_iff prev.detail [], text_eqb_iff prev.detail res.detail)
Reportable→need_send info now res prev (reminder h i j) = ground arith

need_send→Reportable :
    (info : AlertInfo) (now : Time) (res : RuleResult) (prev : AlertState)
    → need_send info now res (next_state info now res (some prev)) ≡ true
    → Reportable info now res prev
unfolding next_state need_send
need_send→Reportable info now res prev h = elim (Bool-cases prev.acked) [
  | inr fresh ↦ unaccepted fresh
  | inl acked ↦ elim (Bool-cases (bool_eqb res.firing prev.firing)) [
    | inr other ↦ changed (ground arith)
    | inl same ↦ elim (Bool-cases (is_info info)) [
      | inl informs ↦
          new_detail (ground arith) informs (ground (arith, text_eqb_iff prev.detail []))
            (ground (arith, text_eqb_iff prev.detail res.detail))
      | inr warns ↦ reminder (ground arith) warns (elim (Bool-cases (is_zero prev.last_sent)) [
        | inl never ↦ inl (ground arith)
        | inr once ↦ inr (ground arith)
      ])
    ]
  ]
]

-- A known alert is reported exactly if the relay has not accepted its value, or the value changed,
-- or it is informational and fires with a detail that is new, or it is not informational, fires
-- and its reminder is due.
pub need_send_iff :
    (info : AlertInfo) (now : Time) (res : RuleResult) (prev : AlertState)
    → (need_send info now res (next_state info now res (some prev)) ≡ true)
      ↔ Reportable info now res prev
need_send_iff info now res prev =
    (need_send→Reportable info now res prev, Reportable→need_send info now res prev)

-- An alert that was not known is reported exactly if it fires and is not informational.
pub need_send_unknown :
    (info : AlertInfo) (now : Time) (res : RuleResult)
    → (need_send info now res (next_state info now res none) ≡ true)
      ↔ ((res.firing ≡ true) × (is_info info ≡ false))
unfolding next_state need_send
need_send_unknown info now res = ((λ h. ground arith), (λ h. ground arith))
