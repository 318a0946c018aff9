-- ===== src/Alerts/Rules/Latest.antt =====
-- The rules of internal/alerts/rules.go that look at the newest samples, or at what the daemon supplies.
use nomctl.Prelude.{
  ℕ, ◌+◌, ◌-◌, ◌*◌, ◌^◌, not, ◌&&◌, ◌||◌, none, some, List, [], ◌∷◌, ◌++◌, Text, bytes, text_eq,
  nat_eq, ltb, nat_eqb, drop, starts_with, format_nat, if◌then◌else◌,
}
use nomctl.Time.{Time, hour, is_zero}
use nomctl.Metrics.{Floats, human_bytes, human_duration, commas}
use nomctl.Alerts.Sample.{ServiceSample, Sample}
use nomctl.Alerts.Config.{RuleConfig, threshold}
use nomctl.Alerts.Daemon.{RuleResult}
use nomctl.Alerts.Rules.History.{newest, last_two}
use nomctl.Alerts.Rules.{
  BackupInfo, WalletInfo, UpdateInfo, Checkers, quiet, fires, is_active, is_nil,
}

unfoldable pub down_detail : ServiceSample → Text
down_detail s =
    if not s.found
    then s.unit ++ bytes ": " ++ s.error
    else s.unit
      ++ bytes " "
      ++ s.active_state
      ++ bytes " ("
      ++ s.sub_state
      ++ bytes "), "
      ++ format_nat s.n_restarts
      ++ bytes " restarts"

unfoldable pub service_down : List Sample → RuleConfig → RuleResult
service_down h cfg = elim (last_two h) [
  | none ↦ quiet
  | some (a, b) ↦ if is_active a || is_active b then quiet else fires (down_detail b.service)
]

unfoldable pub sync_stalled : List Sample → RuleConfig → RuleResult
sync_stalled h cfg = elim (last_two h) [
  | none ↦ quiet
  | some (a, b) ↦
      if a.node.reachable && a.node.stalled && b.node.reachable && b.node.stalled
      then fires (
          bytes "synced at height "
          ++ commas b.node.current_height
          ++ bytes " but frontier is "
          ++ human_duration b.node.frontier_age
          ++ bytes " old")
      else quiet
]

-- `strings.Join(parts, "; ")` of at most two parts, of which an empty one is left out.
abbrev pub join_parts : Text → Text → Text
join_parts a b = if is_nil a then b else if is_nil b then a else a ++ bytes "; " ++ b

unfoldable pub stale_backup : Time → BackupInfo → RuleResult
stale_backup now info =
    if not info.timer_enabled
    then quiet
    else if is_zero info.newest_backup
        || ltb ((info.cadence_days + 1) * 24 * hour) (now - info.newest_backup)
    then fires (
        bytes "newest backup "
        ++ (if is_zero info.newest_backup
            then bytes "never"
            else human_duration (now - info.newest_backup) ++ bytes " ago")
        ++ bytes ", expected every "
        ++ format_nat info.cadence_days
        ++ bytes " day(s)")
    else quiet

abbrev pub trim_v : Text → Text
trim_v s = if starts_with (bytes "v") s then drop 1 s else s

module _ (floats : Floats) where
  unfoldable pub disk_low : List Sample → RuleConfig → RuleResult
  disk_low [] cfg = quiet
  disk_low (a ∷ h) cfg =
      let host = (newest a h).host in
      let min_free = floats.to_nat (
        floats.times (threshold floats cfg (bytes "disk_low") (bytes "min_free_gb"))
          (floats.of_nat (2 ^ 30))) in
      if ltb 0 host.data_dir_total && ltb host.data_dir_free min_free
      then fires (
          host.data_dir
          ++ bytes " has "
          ++ human_bytes floats host.data_dir_free
          ++ bytes " free (minimum "
          ++ human_bytes floats min_free
          ++ bytes ")")
      else quiet

  abbrev pub percent : ℕ → ℕ → ℕ
  percent a b = floats.times (floats.over (floats.of_nat a) (floats.of_nat b)) (floats.of_nat 100)

  unfoldable pub memory_high : List Sample → RuleConfig → RuleResult
  memory_high [] cfg = quiet
  memory_high (a ∷ h) cfg =
      let s = newest a h in
      let pct = percent s.process.rss s.host.mem_total in
      if not s.process.present || nat_eqb s.host.mem_total 0
      then quiet
      else if floats.gt pct (threshold floats cfg (bytes "memory_high") (bytes "pct"))
      then fires (
          bytes "znnd uses "
          ++ human_bytes floats s.process.rss
          ++ bytes ", "
          ++ floats.whole pct
          ++ bytes "% of "
          ++ human_bytes floats s.host.mem_total)
      else quiet

  unfoldable pub fds_high : List Sample → RuleConfig → RuleResult
  fds_high [] cfg = quiet
  fds_high (a ∷ h) cfg =
      let p = (newest a h).process in
      let pct = percent p.open_fds p.fd_limit in
      if not p.present || nat_eqb p.fd_limit 0
      then quiet
      else if floats.gt pct (threshold floats cfg (bytes "fds_high") (bytes "pct"))
      then fires (
          format_nat p.open_fds
          ++ bytes " of "
          ++ format_nat p.fd_limit
          ++ bytes " open files ("
          ++ floats.whole pct
          ++ bytes "%)")
      else quiet

module _ (checkers : Checkers) where
  unfoldable pub missing_wallet : WalletInfo → RuleResult
  missing_wallet info =
      if not info.producer_configured || not info.missing
      then quiet
      else if is_zero info.newest_backup
      then fires (
          bytes
            "a producer key is configured but has never been backed up: sudo nomctl backup wallet")
      else fires (
          bytes "the producer key changed after the newest wallet backup ("
          ++ checkers.format_date info.newest_backup
          ++ bytes "): sudo nomctl backup wallet")

  unfoldable pub wallet_backup_missing : List Sample → RuleConfig → RuleResult
  wallet_backup_missing [] cfg = quiet
  wallet_backup_missing (a ∷ h) cfg = elim checkers.wallet [
    | none ↦ quiet
    | some info ↦ missing_wallet info
  ]

  unfoldable pub update_detail : UpdateInfo → Text
  update_detail info =
      join_parts
        (if not (is_nil info.nomctl_latest) && checkers.newer info.nomctl_latest info.nomctl_running
          then bytes "nomctl "
            ++ trim_v info.nomctl_latest
            ++ bytes " available (running "
            ++ info.nomctl_running
            ++ bytes "): sudo nomctl upgrade"
          else [])
        (if info.node_behind
          then bytes "go-zenon " ++ info.node_branch ++ bytes " has new commits: sudo nomctl deploy"
          else [])

  unfoldable pub update_available : List Sample → RuleConfig → RuleResult
  update_available [] cfg = quiet
  update_available (a ∷ h) cfg = elim checkers.update [
    | none ↦ quiet
    | some info ↦ if is_nil (update_detail info) then quiet else fires (update_detail info)
  ]

  unfoldable pub backup_stale : List Sample → RuleConfig → RuleResult
  backup_stale [] cfg = quiet
  backup_stale (a ∷ h) cfg = elim checkers.backup [
    | none ↦ quiet
    | some info ↦ stale_backup (newest a h).taken info
  ]
