-- ===== src/Tests/Alerts.antt =====
-- The daemon with one rule that fires.
use nomctl.Prelude.{
  ◌*◌, ◌≡◌, ◌↔◌, refl, true, false, not, ◌&&◌, none, some, [], ◌∷◌, bytes, text_eq, if◌then◌else◌,
}
use nomctl.Prelude.Dict.{get}
use nomctl.Time.{minute}
use nomctl.AlertProto.{AlertInfo, Severity, empty_summary}
use nomctl.Alerts.Sample.{Sample, SyncState}
use nomctl.Alerts.Config.{Config}
use nomctl.Alerts.Daemon.{RuleResult, Rule, AlertState, alert, Daemon, Relay, next_state, need_send}
use nomctl.Alerts.Daemon.Judge.{Reportable, need_send_iff}
use nomctl.Alerts.Daemon.Step.{evaluate_rule, step}
use nomctl.Alerts.Daemon.Reports.{
  is_enabled, reports, request_of, posted-evaluate_rule, evaluate_rule_retry,
}
use nomctl.Alerts.Daemon.Unpaired.{IsSilent, step_unpaired}

abbrev firing : RuleResult
firing = record { firing = true; detail = bytes "9%" }

abbrev disk_rule : Rule
disk_rule = record { name = bytes "disk_low"; evaluate = λ history cfg. firing }

abbrev pub cfg : Config
cfg = record {
  relay_url = bytes "https://relay";
  node_id = bytes "n_1";
  secret = bytes "secret";
  name = bytes "one";
  pillar_name = [];
  interval = minute;
  rules = (bytes "disk_low", record { enabled = true; thresholds = [] }) ∷ [];
}

abbrev unsent : AlertState
unsent = record { firing = true; acked = false; since = minute; last_sent = 0; detail = bytes "9%" }

abbrev daemon : Daemon
daemon = record {
  cfg = cfg;
  rules = disk_rule ∷ [];
  history = [];
  state = record {
    last_sample = 0;
    last_heartbeat_ok = 0;
    last_error = [];
    unpaired = false;
    alerts = (bytes "disk_low", unsent) ∷ [];
  };
  evaluated = true;
  last_error_log = 0;
  posted = [];
}

abbrev relay : Relay
relay = record {
  answer = λ n p. none;
  summarize = λ s now. empty_summary;
  announcement = λ s cfg. [];
}

enabled : is_enabled disk_rule daemon ≡ true
unfolding get
enabled = refl

known : get (bytes "disk_low") daemon.state.alerts ≡ some unsent
unfolding get
known = refl

abbrev disk_info : AlertInfo
disk_info = record {
  name = bytes "disk_low";
  severity = Severity.warning;
  title = bytes "disk space low";
  ok_title = bytes "disk space ok";
  relay = false;
}

need_send_iff_example :
    (need_send disk_info minute firing (next_state disk_info minute firing (some unsent)) ≡ true)
    ↔ Reportable disk_info minute firing unsent
need_send_iff_example = need_send_iff disk_info minute firing unsent

evaluate_rule_retry_example :
    (evaluate_rule relay (2 * minute) disk_rule daemon).posted
    ≡ alert (request_of relay (2 * minute) disk_rule daemon) ∷ []
evaluate_rule_retry_example =
    evaluate_rule_retry relay (2 * minute) disk_rule daemon unsent enabled refl known refl

posted-evaluate_rule_example : (evaluate_rule relay (2 * minute) disk_rule daemon).posted ≡ (
    if is_enabled disk_rule daemon && reports relay (2 * minute) disk_rule daemon && not false
    then alert (request_of relay (2 * minute) disk_rule daemon) ∷ []
    else [])
posted-evaluate_rule_example = posted-evaluate_rule relay (2 * minute) disk_rule daemon

abbrev lost : Daemon
lost = record daemon { state = record daemon.state { unpaired = true } }

abbrev pub sample : Sample
sample = record {
  taken = minute;
  service = record {
    unit = [];
    found = true;
    active_state = bytes "active";
    sub_state = bytes "running";
    n_restarts = 0;
    since = 0;
    error = [];
  };
  process = record { present = true; cpu_percent = 0; rss = 0; open_fds = 0; fd_limit = 0 };
  host = record {
    load1 = 0;
    mem_total = 0;
    mem_available = 0;
    data_dir = [];
    data_dir_free = 0;
    data_dir_total = 0;
  };
  node = record {
    url = [];
    reachable = true;
    error = [];
    state = SyncState.done;
    state_text = [];
    current_height = 0;
    target_height = 0;
    num_peers = 0;
    version = [];
    commit = [];
    frontier_known = false;
    ledger_error = [];
    frontier_height = 0;
    frontier_age = 0;
    momentums_per_sec = 0;
    eta = 0;
    eta_known = false;
    stalled = false;
    pillar = record {
      configured = false;
      found = false;
      name = [];
      rank = 0;
      produced = 0;
      expected = 0;
      error = [];
    };
  };
}

step_unpaired_example : IsSilent lost (step relay (2 * minute) sample lost)
step_unpaired_example = step_unpaired relay (2 * minute) sample lost refl
