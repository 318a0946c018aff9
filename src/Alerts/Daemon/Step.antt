-- ===== src/Alerts/Daemon/Step.antt =====
-- `Step`, `evaluate`, `send`, `heartbeat`, `noteError` and `apply` of internal/alerts/daemon.go.
use nomctl.Prelude.{
  ℕ, ◌-◌, ◌*◌, Bool, true, false, not, ◌||◌, Option, none, some, List, [], ◌∷◌, ◌++◌, Text, bytes,
  text_eq, ◌==◌, leb, length, if◌then◌else◌,
}
use nomctl.Prelude.Dict.{Dict, get, put, remove}
use nomctl.Time.{Time, minute}
use nomctl.AlertProto.{State, Severity, AlertRequest, AlertInfo, lookup, info_or_zero}
use nomctl.Alerts.Sample.{Sample}
use nomctl.Alerts.Config.{Config, rule_or_zero}
use nomctl.Alerts.Daemon.{
  RuleResult, Rule, AlertState, ClientError, unpaired, Posted, alert, heartbeat, DaemonState,
  Daemon, Relay, trim_history, next_state, need_send, report,
}

abbrev error_log_every : ℕ
error_log_every = 10 * minute

abbrev set_state : Daemon → DaemonState → Daemon
set_state d st = record d { state = st }

abbrev pub set_alerts : Daemon → Dict Text AlertState → Daemon
set_alerts d alerts = record d { state = record d.state { alerts = alerts } }

-- The texts of the errors; the time of the last log line limits the lines.
unfoldable pub note_error : Time → ClientError → Daemon → Daemon
note_error now unpaired d = record d {
  state = record d.state {
    unpaired = true;
    last_error = bytes "relay rejected the node credentials (unpaired?)";
  };
}
note_error now (ClientError.other text) d = record d {
  state = record d.state { last_error = text };
  last_error_log = if leb error_log_every (now - d.last_error_log) then now else d.last_error_log;
}

-- `if d.send(ctx, req) { prev.Acked = true; prev.LastSent = now }`
abbrev pub mark_sent : Time → Bool → AlertState → AlertState
mark_sent now true st = record st { acked = true; last_sent = now }
mark_sent now false st = st

module _ (relay : Relay) where
  -- `d.client.Alert` and `d.client.Heartbeat`
  unfoldable pub post : Posted → Daemon → Option ClientError × Daemon
  post p d = (relay.answer (length d.posted) p, record d { posted = p ∷ d.posted })

  unfoldable pub after_alert : Time → Option ClientError × Daemon → Bool × Daemon
  after_alert now (none, d) = (true, d)
  after_alert now (some e, d) = (false, note_error now e d)

  unfoldable pub send : Time → AlertRequest → Daemon → Bool × Daemon
  send now a d = if d.state.unpaired then (false, d) else after_alert now (post (alert a) d)

  -- The end of the loop's body: the state is kept, as acknowledged if the relay accepted the report.
  unfoldable pub keep_state : Time → Text → AlertState → Bool × Daemon → Daemon
  keep_state now name st (accepted, d) =
      set_alerts d (put name (mark_sent now accepted st) d.state.alerts)

  unfoldable pub report_alert : Time → Text → AlertInfo → RuleResult → AlertState → Daemon → Daemon
  report_alert now name info res st d =
      if need_send info now res st
      then keep_state now name st (send now (report name info now res) d)
      else set_alerts d (put name st d.state.alerts)

  unfoldable pub evaluate_rule : Time → Rule → Daemon → Daemon
  evaluate_rule now r d =
      let rc = rule_or_zero (get r.name d.cfg.rules) in
      let info = info_or_zero (lookup r.name) in
      let res = r.evaluate d.history rc in
      if not rc.enabled
      then set_alerts d (remove r.name d.state.alerts)
      else report_alert now r.name info res (next_state info now res (get r.name d.state.alerts)) d

  unfoldable pub evaluate : Time → List Rule → Daemon → Daemon
  evaluate now [] d = d
  evaluate now (r ∷ rs) d = evaluate now rs (evaluate_rule now r d)

  -- The first evaluation takes the current values as a baseline and reports none of them.
  unfoldable pub baseline_rule : Time → Rule → Daemon → Daemon
  baseline_rule now r d =
      let rc = rule_or_zero (get r.name d.cfg.rules) in
      let res = r.evaluate d.history rc in
      if not rc.enabled
      then d
      else set_alerts d (
          put r.name
            (record {
              firing = res.firing;
              acked = true;
              since = now;
              last_sent = 0;
              detail = res.detail;
            })
            d.state.alerts)

  unfoldable pub baseline_all : Time → List Rule → Daemon → Daemon
  baseline_all now [] d = d
  baseline_all now (r ∷ rs) d = baseline_all now rs (baseline_rule now r d)

  unfoldable pub announce : Time → Sample → Daemon → Daemon
  announce now sample d =
      (send now
        (record {
          alert = bytes "started";
          state = State.info;
          severity = Severity.info_sev;
          title = bytes "alerts started";
          detail = relay.announcement sample d.cfg;
          at = now;
        })
        (record d { evaluated = true })).1

  unfoldable pub after_heartbeat : Time → Option ClientError × Daemon → Daemon
  after_heartbeat now (none, d) = record d {
    state = record d.state { last_heartbeat_ok = now; last_error = [] };
  }
  after_heartbeat now (some e, d) = note_error now e d

  unfoldable pub send_heartbeat : Time → Sample → Daemon → Daemon
  send_heartbeat now sample d =
      if d.state.unpaired
      then d
      else after_heartbeat now (post (heartbeat now (relay.summarize sample now)) d)

  -- The sample joins the history, and what is older than the window leaves it.
  unfoldable pub take_sample : Time → Sample → Daemon → Daemon
  take_sample now sample d = record d {
    history = trim_history (d.history ++ sample ∷ []) now;
    state = record d.state { last_sample = now };
  }

  unfoldable pub step : Time → Sample → Daemon → Daemon
  step now sample d =
      let d1 = take_sample now sample d in
      send_heartbeat now sample (
        if d1.evaluated
        then evaluate now d1.rules d1
        else announce now sample (baseline_all now d1.rules d1))

-- The part of `apply` that a daemon shows: new credentials clear the unpaired state. `decodes` tells
-- whether the new secret is base64; if it is not, the old configuration stays.
unfoldable pub apply : (Text → Bool) → Config → Daemon → Daemon
apply decodes cfg d =
    let changed =
      not (cfg.relay_url == d.cfg.relay_url)
      || not (cfg.node_id == d.cfg.node_id)
      || not (cfg.secret == d.cfg.secret) in
    if changed
    then (if decodes cfg.secret
        then record d { cfg = cfg; state = record d.state { unpaired = false; last_error = [] } }
        else d)
    else record d { cfg = cfg }
