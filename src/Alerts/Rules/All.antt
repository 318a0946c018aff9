-- ===== src/Alerts/Rules/All.antt =====
-- `AllRules` of internal/alerts/rules.go.
use nomctl.Prelude.{List, [], ◌∷◌, Text, bytes, text_eq, nat_eq}
use nomctl.Metrics.{Floats}
use nomctl.Alerts.Sample.{Sample}
use nomctl.Alerts.Config.{RuleConfig}
use nomctl.Alerts.Daemon.{RuleResult, Rule}
use nomctl.Alerts.Rules.{Checkers}
use nomctl.Alerts.Rules.Latest.{
  service_down, sync_stalled, disk_low, memory_high, fds_high, backup_stale, wallet_backup_missing,
  update_available,
}
use nomctl.Alerts.Rules.Lasting.{
  crash_loop, sync_behind, not_enough_peers_rule, rpc_unreachable, momentums_stalled, pillar_missed,
}

abbrev rule : Text → (List Sample → RuleConfig → RuleResult) → Rule
rule name f = record { name = name; evaluate = f }

module _ (floats : Floats) (checkers : Checkers) where
  unfoldable pub all_rules : List Rule
  all_rules =
      rule (bytes "service_down") service_down
      ∷ rule (bytes "crash_loop") (crash_loop floats)
      ∷ rule (bytes "sync_stalled") sync_stalled
      ∷ rule (bytes "sync_behind") (sync_behind floats)
      ∷ rule (bytes "not_enough_peers") (not_enough_peers_rule floats)
      ∷ rule (bytes "disk_low") (disk_low floats)
      ∷ rule (bytes "memory_high") (memory_high floats)
      ∷ rule (bytes "fds_high") (fds_high floats)
      ∷ rule (bytes "backup_stale") (backup_stale checkers)
      ∷ rule (bytes "wallet_backup_missing") (wallet_backup_missing checkers)
      ∷ rule (bytes "rpc_unreachable") (rpc_unreachable floats)
      ∷ rule (bytes "momentums_stalled") (momentums_stalled floats)
      ∷ rule (bytes "pillar_missed") (pillar_missed floats)
      ∷ rule (bytes "update_available") (update_available checkers)
      ∷ []
