-- ===== src/Alerts/Sample.antt =====
-- One observation of the node, of internal/metrics/sample.go, and the sync states of
-- internal/node/client.go. Fields that no rule or summary reads are left out. A float64 is its bits.
use nomctl.Prelude.{ℕ, Bool, Text}
use nomctl.Time.{Time, Duration}
use nomctl.AlertProto.{Float64}

pub data SyncState : Type 0 where
  unknown syncing done not_enough_peers : SyncState

pub record ServiceSample : Type 0 where
  pub unit : Text
  pub found : Bool
  pub active_state : Text
  pub sub_state : Text
  pub n_restarts : ℕ
  pub since : Time
  pub error : Text

pub record ProcessSample : Type 0 where
  pub present : Bool
  pub cpu_percent : Float64
  pub rss : ℕ
  pub open_fds : ℕ
  pub fd_limit : ℕ

pub record HostSample : Type 0 where
  pub load1 : Float64
  pub mem_total : ℕ
  pub mem_available : ℕ
  pub data_dir : Text
  pub data_dir_free : ℕ
  pub data_dir_total : ℕ

pub record PillarSample : Type 0 where
  pub configured : Bool
  pub found : Bool
  pub name : Text
  pub rank : ℕ
  pub produced : ℕ
  pub expected : ℕ
  pub error : Text

pub record NodeSample : Type 0 where
  pub url : Text
  pub reachable : Bool
  pub error : Text
  pub state : SyncState
  pub state_text : Text
  pub current_height : ℕ
  pub target_height : ℕ
  pub num_peers : ℕ
  pub version : Text
  pub commit : Text
  pub frontier_known : Bool
  pub ledger_error : Text
  pub frontier_height : ℕ
  pub frontier_age : Duration
  pub momentums_per_sec : Float64
  pub eta : Duration
  pub eta_known : Bool
  pub stalled : Bool
  pub pillar : PillarSample

pub record Sample : Type 0 where
  pub taken : Time
  pub service : ServiceSample
  pub process : ProcessSample
  pub host : HostSample
  pub node : NodeSample
