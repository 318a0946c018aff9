-- ===== src/Alerts/Summary.antt =====
-- `Summarize` of internal/alerts/daemon.go: the heartbeat's summary of a sample.
use nomctl.Prelude.{◌-◌, ◌/◌, not, ◌&&◌, [], ◌++◌, Text, bytes, text_eq, if◌then◌else◌}
use nomctl.Time.{Time, second, is_zero}
use nomctl.AlertProto.{Summary, empty_summary}
use nomctl.Alerts.Sample.{Sample, PillarSample}
use nomctl.Alerts.Rules.{UpdateInfo, Checkers, is_active, is_nil}

-- The part about the pillar.
unfoldable pub with_pillar : PillarSample → Summary → Summary
with_pillar p sum =
    if not p.configured
    then sum
    else if p.found
    then record sum {
      pillar_name = p.name;
      pillar_rank = p.rank;
      pillar_produced = p.produced;
      pillar_expected = p.expected;
    }
    else record sum { pillar_name = p.name; pillar_error = p.error }

-- The last of the assignments to `State` counts.
unfoldable pub state_text : Sample → Text
state_text s =
    if not (is_active s)
    then bytes "service " ++ s.service.active_state
    else if not s.node.reachable
    then bytes "rpc unreachable"
    else s.node.state_text

unfoldable pub summarize : Checkers → Sample → Time → Text → UpdateInfo → Summary
summarize checkers s now nomctl_version upd =
    let n = s.node in
    with_pillar n.pillar (record empty_summary {
      state = state_text s;
      height = n.current_height;
      peers = n.num_peers;
      restarts = s.service.n_restarts;
      target_height = n.target_height;
      momentum_rate = n.momentums_per_sec;
      node_version = n.version;
      node_commit = n.commit;
      nomctl_version = nomctl_version;
      load1 = s.host.load1;
      mem_free = s.host.mem_available;
      mem_total = s.host.mem_total;
      disk_free = s.host.data_dir_free;
      disk_total = s.host.data_dir_total;
      eta_seconds = if n.eta_known then n.eta / second else 0;
      frontier = if n.frontier_known then n.frontier_height else 0;
      frontier_age_seconds = if n.frontier_known then n.frontier_age / second else 0;
      ledger_busy = not n.frontier_known && n.reachable;
      uptime_seconds =
          if is_active s && not (is_zero s.service.since)
          then (now - s.service.since) / second
          else 0;
      cpu_percent = if s.process.present then s.process.cpu_percent else 0;
      rss = if s.process.present then s.process.rss else 0;
      nomctl_update =
          if not (is_nil upd.nomctl_latest) && checkers.newer upd.nomctl_latest upd.nomctl_running
          then upd.nomctl_latest
          else [];
      node_update = upd.node_behind;
    })
