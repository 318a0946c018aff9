-- ===== src/Alerts/Rules/Lasting.antt =====
-- The rules of internal/alerts/rules.go that look at a window of the history.
use nomctl.Prelude.{
  ℕ, ◌+◌, ◌-◌, ◌%◌, ◌^◌, Bool, true, false, not, ◌&&◌, ◌||◌, List, [], ◌∷◌, ◌++◌, Text, bytes,
  text_eq, nat_eq, ◌==◌, ltb, leb, all, any, format_nat, if◌then◌else◌,
}
use nomctl.Time.{Duration}
use nomctl.Metrics.{Floats, human_duration, commas}
use nomctl.Alerts.Sample.{SyncState, NodeSample, PillarSample, Sample, syncing, not_enough_peers}
use nomctl.Alerts.Config.{RuleConfig}
use nomctl.Alerts.Daemon.{RuleResult}
use nomctl.Alerts.Rules.History.{newest, since, after_rollover}
use nomctl.Alerts.Rules.{quiet, fires, is_active, judge_window, minutes, whole_threshold}

-- `uint64` subtraction.
abbrev pub sub64 : ℕ → ℕ → ℕ
sub64 a b = (a + 2 ^ 64 - b) % 2 ^ 64

abbrev pub is_syncing : SyncState → Bool
is_syncing syncing = true
is_syncing _ = false

abbrev pub lacks_peers : SyncState → Bool
lacks_peers not_enough_peers = true
lacks_peers _ = false

-- `gapLast >= gapFirst && gapLast > 0`, for heights below 2 ^ 63.
abbrev pub gap_open : NodeSample → NodeSample → Bool
gap_open first last =
    leb (first.target_height + last.current_height) (last.target_height + first.current_height)
    && ltb last.current_height last.target_height

unfoldable pub peers_detail : NodeSample → ℕ → Duration → Text
peers_detail n min_peers d =
    (if lacks_peers n.state
      then bytes "node reports 'not enough peers' ("
        ++ format_nat n.num_peers
        ++ bytes " connected) for "
      else format_nat n.num_peers
        ++ bytes " peers connected (minimum "
        ++ format_nat min_peers
        ++ bytes ") for ")
    ++ human_duration d
    ++ bytes "; check that port 35995/TCP is reachable"

unfoldable pub stalled_detail : Bool → NodeSample → Duration → Text
stalled_detail ledger_blocked n d =
    bytes "height "
    ++ commas n.current_height
    ++ bytes " unchanged for "
    ++ human_duration d
    ++ (if ledger_blocked
        then bytes " and the ledger has not answered in that time (state: "
          ++ n.state_text
          ++ bytes "); a momentum insert may be hung"
        else if not n.frontier_known
        then bytes ", ledger not answering now: "
          ++ n.ledger_error
          ++ bytes " (state: "
          ++ n.state_text
          ++ bytes ")"
        else bytes ", frontier "
          ++ human_duration n.frontier_age
          ++ bytes " old (state: "
          ++ n.state_text
          ++ bytes ")")

unfoldable pub missed_detail : PillarSample → ℕ → ℕ → Duration → Text
missed_detail last expected produced d =
    last.name
    ++ bytes " missed "
    ++ format_nat (expected - produced)
    ++ bytes " of "
    ++ format_nat expected
    ++ bytes " expected momentums in the last "
    ++ human_duration d
    ++ bytes " ("
    ++ format_nat last.produced
    ++ bytes " / "
    ++ format_nat last.expected
    ++ bytes " this epoch)"

module _ (floats : Floats) where
  unfoldable pub crash_loop : List Sample → RuleConfig → RuleResult
  crash_loop h cfg =
      let d = minutes floats cfg (bytes "crash_loop") (bytes "window_minutes") in
      let count = whole_threshold floats cfg (bytes "crash_loop") (bytes "count") in
      elim (since h d) [
        | [] ↦ quiet
        | a ∷ [] ↦ quiet
        | a ∷ b ∷ win ↦
            (let first = a.service.n_restarts in
              let last = (newest b win).service.n_restarts in
              if leb (first + count) last
              then fires (
                  format_nat (last - first)
                  ++ bytes " restarts in the last "
                  ++ human_duration d
                  ++ bytes " (total "
                  ++ format_nat last
                  ++ bytes ")")
              else quiet)
      ]

  unfoldable pub sync_behind : List Sample → RuleConfig → RuleResult
  sync_behind h cfg =
      let d = minutes floats cfg (bytes "sync_behind") (bytes "minutes") in
      judge_window d (since h d) (λ a win.
        let last = (newest a win).node in
        if all (λ s. s.node.reachable && is_syncing s.node.state) win && gap_open a.node last
        then fires (
            commas (last.target_height - last.current_height)
            ++ bytes " momentums behind, gap not closing for "
            ++ human_duration d
            ++ bytes " ("
            ++ floats.one_decimal last.momentums_per_sec
            ++ bytes " mom/s)")
        else quiet)

  unfoldable pub not_enough_peers_rule : List Sample → RuleConfig → RuleResult
  not_enough_peers_rule h cfg =
      let d = minutes floats cfg (bytes "not_enough_peers") (bytes "minutes") in
      let min_peers = whole_threshold floats cfg (bytes "not_enough_peers") (bytes "min_peers") in
      judge_window d (since h d) (λ a win.
        if all
          (λ s. s.node.reachable && (lacks_peers s.node.state || ltb s.node.num_peers min_peers))
          win
        then fires (peers_detail (newest a win).node min_peers d)
        else quiet)

  unfoldable pub rpc_unreachable : List Sample → RuleConfig → RuleResult
  rpc_unreachable h cfg =
      let d = minutes floats cfg (bytes "rpc_unreachable") (bytes "minutes") in
      judge_window d (since h d) (λ a win.
        let n = (newest a win).node in
        if all (λ s. is_active s && not s.node.reachable) win
        then fires (
            bytes "service active but "
            ++ n.url
            ++ bytes " not answering for "
            ++ human_duration d
            ++ bytes ": "
            ++ n.error)
        else quiet)

  unfoldable pub momentums_stalled : List Sample → RuleConfig → RuleResult
  momentums_stalled h cfg =
      let d = minutes floats cfg (bytes "momentums_stalled") (bytes "minutes") in
      judge_window d (since h d) (λ a win.
        if all
          (λ s. is_active s && s.node.reachable && s.node.current_height == a.node.current_height)
          win
        then fires
            (stalled_detail (not (any (λ s. s.node.frontier_known) win)) (newest a win).node d)
        else quiet)

  -- The window after the last epoch rollover must be long enough itself.
  unfoldable pub pillar_missed : List Sample → RuleConfig → RuleResult
  pillar_missed h cfg =
      let d = minutes floats cfg (bytes "pillar_missed") (bytes "minutes") in
      let min_missed = whole_threshold floats cfg (bytes "pillar_missed") (bytes "missed") in
      judge_window d (since h d) (λ _ whole. judge_window d (after_rollover whole) (λ a win.
        let first = a.node.pillar in
        let last = (newest a win).node.pillar in
        let expected = sub64 last.expected first.expected in
        let produced = sub64 last.produced first.produced in
        if all (λ s. s.node.reachable && s.node.pillar.configured && s.node.pillar.found) win
          && ltb produced expected
          && leb min_missed (expected - produced)
        then fires (missed_detail last expected produced d)
        else quiet))
