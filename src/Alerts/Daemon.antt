-- ===== src/Alerts/Daemon.antt =====
-- The alert daemon of internal/alerts/daemon.go, over any rules and any relay. Log lines and the state
-- file are left out, and one clock reading serves a step.
pub mod Step
pub mod Judge
pub mod Reports
pub mod Unpaired
use nomctl.Prelude.{
  ℕ, ◌+◌, ◌-◌, ◌*◌, Bool, true, false, not, ◌&&◌, ◌||◌, Option, none, some, List, [], ◌∷◌, ◌++◌,
  Text, bytes, text_eq, ◌==◌, leb, ltb, length, Result, ok, err, if◌then◌else◌,
}
use nomctl.Prelude.Dict.{Dict, get, put, remove}
use nomctl.Time.{Time, Duration, minute, is_zero}
use nomctl.AlertProto.{
  State, Severity, severity_eqb, AlertRequest, AlertInfo, Summary, lookup, info_or_zero,
}
use nomctl.Alerts.Sample.{Sample}
use nomctl.Alerts.Config.{Config, RuleConfig, rule_or_zero}

abbrev pub reminder_every : Duration
reminder_every = 10 * minute

abbrev pub history_window : Duration
history_window = 30 * minute

pub record RuleResult : Type 0 where
  pub firing : Bool
  pub detail : Text

pub record Rule : Type 0 where
  pub name : Text
  pub evaluate : List Sample → RuleConfig → RuleResult

-- `acked` is false while the relay has not accepted the current value of `firing`.
pub record AlertState : Type 0 where
  pub firing : Bool
  pub acked : Bool
  pub since : Time
  pub last_sent : Time
  pub detail : Text

-- `ErrUnpaired`, or any other error with its text.
pub data ClientError : Type 0 where
  unpaired : ClientError
  other : Text → ClientError

pub data Posted : Type 0 where
  alert : AlertRequest → Posted
  heartbeat : Time → Summary → Posted

pub record DaemonState : Type 0 where
  pub last_sample : Time
  pub last_heartbeat_ok : Time
  pub last_error : Text
  pub unpaired : Bool
  pub alerts : Dict Text AlertState

-- `posted` holds what was sent to the relay, newest first.
pub record Daemon : Type 0 where
  pub cfg : Config
  pub rules : List Rule
  pub history : List Sample
  pub state : DaemonState
  pub evaluated : Bool
  pub last_error_log : Time
  pub posted : List Posted

-- What the daemon does not implement: the relay's answer to the n-th request, the summary of a sample
-- and the text of the first announcement.
pub record Relay : Type 0 where
  pub answer : ℕ → Posted → Option ClientError
  pub summarize : Sample → Time → Summary
  pub announcement : Sample → Config → Text

-- `trimHistory`: the samples from the first on that is not older than the window.
unfoldable pub drop_before : Time → List Sample → List Sample
drop_before cut [] = []
drop_before cut (s ∷ h) = let rest = drop_before cut h in if ltb s.taken cut then rest else s ∷ h

unfoldable pub trim_history : List Sample → Time → List Sample
trim_history h now = drop_before (now - history_window) h

-- The state of an alert before it is reported, and whether it is to be reported.
abbrev pub baseline : Time → RuleResult → Option AlertState → AlertState
baseline now res (some prev) = prev
baseline now res none = record {
  firing = res.firing;
  acked = true;
  since = now;
  last_sent = 0;
  detail = [];
}

abbrev pub bool_eqb : Bool → Bool → Bool
bool_eqb true b = b
bool_eqb false b = not b

abbrev pub is_info : AlertInfo → Bool
is_info info = severity_eqb info.severity Severity.info_sev

-- `if res.Firing != prev.Firing { prev = AlertState{Firing: res.Firing, Since: now} }`
abbrev pub transition : Time → RuleResult → AlertState → AlertState
transition now res prev =
    if bool_eqb res.firing prev.firing
    then prev
    else record { firing = res.firing; acked = false; since = now; last_sent = 0; detail = [] }

-- An informational alert is never reminded, so a changed detail makes it a new event.
abbrev pub refresh : AlertInfo → RuleResult → AlertState → AlertState
refresh info res prev =
    if res.firing
    then record prev {
      acked =
          if is_info info
            && prev.acked
            && not (prev.detail == [])
            && not (prev.detail == res.detail)
          then false
          else prev.acked;
      detail = res.detail;
    }
    else prev

unfoldable pub next_state : AlertInfo → Time → RuleResult → Option AlertState → AlertState
next_state info now res known = refresh info res (transition now res (baseline now res known))

unfoldable pub need_send : AlertInfo → Time → RuleResult → AlertState → Bool
need_send info now res prev =
    let remind =
      not (is_info info) && (is_zero prev.last_sent || leb reminder_every (now - prev.last_sent)) in
    not prev.acked || res.firing && remind

-- The request that reports a result.
unfoldable pub report : Text → AlertInfo → Time → RuleResult → AlertRequest
report name info now res =
    if res.firing
    then record {
      alert = name;
      state = State.firing;
      severity = info.severity;
      title = info.title;
      detail = res.detail;
      at = now;
    }
    else record {
      alert = name;
      state = State.ok;
      severity = info.severity;
      title = info.ok_title;
      detail = [];
      at = now;
    }
