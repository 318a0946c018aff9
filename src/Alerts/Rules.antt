-- ===== src/Alerts/Rules.antt =====
-- The rules of internal/alerts/rules.go: conditions on the history of samples, the oldest first. Here
-- is what they share. What the daemon supplies to a rule (`BackupChecker` and the like) is what it
-- answers in this evaluation, none where it is nil.
pub mod History
pub mod Latest
pub mod Lasting
pub mod All
pub mod Windows
use nomctl.Prelude.{
  ℕ, ◌+◌, ◌-◌, ◌*◌, ◌%◌, ◌^◌, Bool, true, false, not, ◌&&◌, ◌||◌, Option, none, some, List, [], ◌∷◌,
  ◌++◌, Text, bytes, text_eq, nat_eq, ◌==◌, ltb, leb, nat_eqb, all, any, drop, starts_with,
  format_nat, if◌then◌else◌,
}
use nomctl.Time.{Time, Duration, minute, hour, is_zero}
use nomctl.Metrics.{Floats, human_bytes, human_duration, commas}
use nomctl.Alerts.Sample.{
  SyncState, ServiceSample, NodeSample, PillarSample, Sample, syncing, not_enough_peers,
}
use nomctl.Alerts.Config.{RuleConfig, threshold}
use nomctl.Alerts.Daemon.{RuleResult, Rule}
use nomctl.Alerts.Rules.History.{covers}

pub record BackupInfo : Type 0 where
  pub timer_enabled : Bool
  pub newest_backup : Time
  pub cadence_days : ℕ

pub record WalletInfo : Type 0 where
  pub producer_configured : Bool
  pub missing : Bool
  pub newest_backup : Time

pub record UpdateInfo : Type 0 where
  pub nomctl_latest : Text
  pub nomctl_running : Text
  pub node_behind : Bool
  pub node_branch : Text

-- `newer` is `NewerVersion`, and `format_date` the standard library's "2006-01-02" in UTC.
pub record Checkers : Type 0 where
  pub backup : Option BackupInfo
  pub wallet : Option WalletInfo
  pub update : Option UpdateInfo
  pub newer : Text → Text → Bool
  pub format_date : Time → Text

abbrev pub quiet : RuleResult
quiet = record { firing = false; detail = [] }

abbrev pub fires : Text → RuleResult
fires detail = record { firing = true; detail = detail }

abbrev pub is_active : Sample → Bool
is_active s = s.service.active_state == bytes "active"

abbrev pub is_nil : Text → Bool
is_nil [] = true
is_nil (_ ∷ _) = false

-- The rules that look at a whole window: the window with its first sample, if it is long enough.
abbrev pub judge_window : Duration → List Sample → (Sample → List Sample → RuleResult) → RuleResult
judge_window d [] f = quiet
judge_window d (a ∷ win) f = if covers (a ∷ win) d then f a (a ∷ win) else quiet

module _ (floats : Floats) where
  -- A threshold is never negative: `Set` refuses it and `Load` replaces it.
  unfoldable pub minutes : RuleConfig → Text → Text → Duration
  minutes cfg rule key =
      floats.to_nat (floats.times (threshold floats cfg rule key) (floats.of_nat minute))

  abbrev pub whole_threshold : RuleConfig → Text → Text → ℕ
  whole_threshold cfg rule key = floats.to_nat (threshold floats cfg rule key)
