-- ===== src/AlertProto.antt =====
-- The wire types of internal/alertproto/proto.go, the table of alerts and the check of a request.
pub mod Sign
use nomctl.Prelude.{
  ℕ, Bool, true, false, not, ◌&&◌, ◌||◌, Option, none, some, List, [], ◌∷◌, Text, bytes, text_eq,
  String, ◌==◌, ◌≡◌, ◌↔◌, arith, text_eqb_iff, Eq, leb, length, if◌then◌else◌,
}
use nomctl.Time.{Time}

-- `State` is a string: `other` stands for any but the three that the package names.
pub data State : Type 0 where
  firing ok info : State
  other : Text → State

abbrev pub state_eqb : State → State → Bool
state_eqb State.firing State.firing = true
state_eqb State.ok State.ok = true
state_eqb State.info State.info = true
state_eqb (State.other s) (State.other t) = s == t
state_eqb _ _ = false

pub state_eqb_iff : (a b : State) → (state_eqb a b ≡ true) ↔ (a ≡ b)
state_eqb_iff State.firing b = ground arith
state_eqb_iff State.ok b = ground arith
state_eqb_iff State.info b = ground arith
state_eqb_iff (State.other s) (State.other t) = ground (arith, text_eqb_iff s t)
state_eqb_iff (State.other s) b = ground arith

instance abbrev pub state_eq : Eq State
state_eq = record { eqb = state_eqb; eqb_iff = state_eqb_iff }

-- `Severity` is a string too. Its constant `InfoSev` is the string "info".
pub data Severity : Type 0 where
  critical warning info_sev : Severity
  other : Text → Severity

abbrev pub severity_eqb : Severity → Severity → Bool
severity_eqb Severity.critical Severity.critical = true
severity_eqb Severity.warning Severity.warning = true
severity_eqb Severity.info_sev Severity.info_sev = true
severity_eqb (Severity.other s) (Severity.other t) = s == t
severity_eqb _ _ = false

pub record AlertRequest : Type 0 where
  pub alert : Text
  pub state : State
  pub severity : Severity
  pub title : Text
  pub detail : Text
  pub at : Time

pub record PairRequest : Type 0 where
  pub code : Text
  pub name : Text
  pub host : Text
  pub version : Text

-- A float64 by its 64 bits. What the program computes with floats is a parameter where it does.
abbrev pub Float64 : Type 0
Float64 = ℕ

-- The node status of a heartbeat.
pub record Summary : Type 0 where
  pub state : Text
  pub height : ℕ
  pub peers : ℕ
  pub restarts : ℕ
  pub target_height : ℕ
  pub momentum_rate : Float64
  pub eta_seconds : ℕ
  pub frontier : ℕ
  pub frontier_age_seconds : ℕ
  pub ledger_busy : Bool
  pub uptime_seconds : ℕ
  pub node_version : Text
  pub node_commit : Text
  pub nomctl_version : Text
  pub pillar_name : Text
  pub pillar_rank : ℕ
  pub pillar_produced : ℕ
  pub pillar_expected : ℕ
  pub pillar_error : Text
  pub load1 : Float64
  pub mem_free : ℕ
  pub mem_total : ℕ
  pub disk_free : ℕ
  pub disk_total : ℕ
  pub cpu_percent : Float64
  pub rss : ℕ
  pub nomctl_update : Text
  pub node_update : Bool

-- The zero value of a `Summary`; the bits of the float 0 are 0.
abbrev pub empty_summary : Summary
empty_summary = record {
  state = [];
  height = 0;
  peers = 0;
  restarts = 0;
  target_height = 0;
  momentum_rate = 0;
  eta_seconds = 0;
  frontier = 0;
  frontier_age_seconds = 0;
  ledger_busy = false;
  uptime_seconds = 0;
  node_version = [];
  node_commit = [];
  nomctl_version = [];
  pillar_name = [];
  pillar_rank = 0;
  pillar_produced = 0;
  pillar_expected = 0;
  pillar_error = [];
  load1 = 0;
  mem_free = 0;
  mem_total = 0;
  disk_free = 0;
  disk_total = 0;
  cpu_percent = 0;
  rss = 0;
  nomctl_update = [];
  node_update = false;
}

pub record AlertInfo : Type 0 where
  pub name : Text
  pub severity : Severity
  pub title : Text
  pub ok_title : Text
  pub relay : Bool

abbrev node_alert : String → Severity → String → String → AlertInfo
node_alert name severity title ok_title = record {
  name = bytes name;
  severity = severity;
  title = bytes title;
  ok_title = bytes ok_title;
  relay = false;
}

-- Every alert kind, node-raised first.
unfoldable pub alerts : List AlertInfo
alerts =
    node_alert "service_down" Severity.critical "service down" "service back up"
    ∷ node_alert "crash_loop" Severity.critical "crash loop" "crash loop ended"
    ∷ node_alert "sync_stalled" Severity.critical "sync stalled" "sync resumed"
    ∷ node_alert "sync_behind" Severity.warning "sync falling behind" "sync catching up"
    ∷ node_alert "not_enough_peers" Severity.warning "not enough peers" "peers ok"
    ∷ node_alert "disk_low" Severity.warning "disk space low" "disk space ok"
    ∷ node_alert "memory_high" Severity.warning "memory high" "memory ok"
    ∷ node_alert "fds_high" Severity.warning "open files high" "open files ok"
    ∷ node_alert "backup_stale" Severity.warning "backup overdue" "backup ok"
    ∷ node_alert "wallet_backup_missing" Severity.info_sev "producer key not backed up"
        "producer key backed up"
    ∷ node_alert "rpc_unreachable" Severity.warning "node rpc unreachable" "node rpc ok"
    ∷ node_alert "momentums_stalled" Severity.critical "momentums stalled"
        "momentums advancing again"
    ∷ node_alert "pillar_missed" Severity.critical "pillar missing momentums"
        "pillar producing again"
    ∷ node_alert "update_available" Severity.info_sev "update available" "up to date"
    ∷ record (node_alert "node_silent" Severity.critical "node silent" "node reporting again") {
      relay = true;
    }
    ∷ []

unfoldable pub lookup_in : Text → List AlertInfo → Option AlertInfo
lookup_in name [] = none
lookup_in name (a ∷ as') = if a.name == name then some a else lookup_in name as'

unfoldable pub lookup : Text → Option AlertInfo
unfolding lookup_in
lookup name = lookup_in name alerts

-- `info, _ := Lookup(name)`: the zero value where the name is unknown.
abbrev pub info_or_zero : Option AlertInfo → AlertInfo
info_or_zero (some a) = a
info_or_zero none = record {
  name = [];
  severity = Severity.other [];
  title = [];
  ok_title = [];
  relay = false;
}

-- `Events`: names that a node sends and that are not rules.
unfoldable pub is_event : Text → Bool
is_event name = name == bytes "started" || name == bytes "test"

abbrev pub max_title_len : ℕ
max_title_len = 200

abbrev pub max_detail_len : ℕ
max_detail_len = 2000

abbrev pub is_some {ℓ} : {A : Type ℓ} → Option A → Bool
is_some none = false
is_some (some _) = true

abbrev is_known_state : State → Bool
is_known_state (State.other _) = false
is_known_state _ = true

abbrev is_known_severity : Severity → Bool
is_known_severity (Severity.other _) = false
is_known_severity _ = true

unfoldable pub valid_alert : AlertRequest → Bool
valid_alert a =
    if not (is_some (lookup a.alert)) && not (is_event a.alert)
    then false
    else if is_event a.alert
        && (not (a.state == State.info) || not (severity_eqb a.severity Severity.info_sev))
    then false
    else if not (is_known_state a.state)
    then false
    else if not (is_known_severity a.severity)
    then false
    else leb (length a.title) max_title_len && leb (length a.detail) max_detail_len
