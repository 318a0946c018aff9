-- ===== src/Alerts/Config.antt =====
-- The daemon's configuration of internal/alerts/config.go: the thresholds and their defaults, the
-- command `set`, and what loading a file makes of it. Float64 operations are a record of functions.
pub mod Bounds
use nomctl.Prelude.{
  ℕ, ◌*◌, Bool, true, false, not, ◌&&◌, ◌||◌, Option, none, some, List, [], ◌∷◌, Text, bytes,
  text_eq, nat_eq, ◌==◌, ltb, Result, ok, err, if◌then◌else◌,
}
use nomctl.Prelude.Dict.{Dict, get, put}
use nomctl.Time.{Time, Duration, second, minute}
use nomctl.AlertProto.{Float64, AlertInfo, alerts}
use nomctl.Metrics.{Floats}

pub record RuleConfig : Type 0 where
  pub enabled : Bool
  pub thresholds : Dict Text Float64

-- `Rules[name]` of a name that is not there.
abbrev pub rule_or_zero : Option RuleConfig → RuleConfig
rule_or_zero none = record { enabled = false; thresholds = [] }
rule_or_zero (some rc) = rc

pub record Config : Type 0 where
  pub relay_url : Text
  pub node_id : Text
  pub secret : Text
  pub name : Text
  pub pillar_name : Text
  pub interval : Duration
  pub rules : Dict Text RuleConfig

abbrev pub default_interval : Duration
default_interval = 30 * second

-- The build sets the address of the relay.
abbrev pub default_relay_url : Text
default_relay_url = bytes "https://alerts.example.invalid"

abbrev pub max_window_minutes : ℕ
max_window_minutes = 30

abbrev pub is_minutes : Text → Bool
is_minutes field = field == bytes "minutes" || field == bytes "window_minutes"

abbrev pub disabled_by_default : Text → Bool
disabled_by_default name = name == bytes "update_available" || name == bytes "wallet_backup_missing"

-- What `Set` refuses.
pub data SetError : Type 0 where
  no_dot unknown_alert not_boolean unknown_setting not_number negative above_percent above_window :
      SetError

-- A configuration file as its JSON decodes; a text that is not there is empty.
pub record ConfigFile : Type 0 where
  pub config : Config
  pub interval_text : Text

-- What `Set` takes from the standard library.
pub record Parsers : Type 0 where
  pub parse_bool : Text → Option Bool
  pub parse_float : Text → Option Float64
  pub parse_duration : Text → Option Duration
  pub trim_space : Text → Text

-- `strings.Cut(key, ".")`
unfoldable pub cut_dot : Text → Option (Text × Text)
cut_dot [] = none
cut_dot (c ∷ s) =
    let rest = cut_dot s in
    if c == b'.'
    then some ([], s)
    else (elim rest [ none ↦ none | some (before, after) ↦ some (c ∷ before, after) ])

module _ (floats : Floats) where
  unfoldable pub default_thresholds : Dict Text (Dict Text Float64)
  default_thresholds =
      (bytes "service_down", [])
      ∷ (
        bytes "crash_loop",
        (bytes "window_minutes", floats.of_nat 10) ∷ (bytes "count", floats.of_nat 2) ∷ [],
      )
      ∷ (bytes "sync_stalled", [])
      ∷ (bytes "sync_behind", (bytes "minutes", floats.of_nat 10) ∷ [])
      ∷ (
        bytes "not_enough_peers",
        (bytes "min_peers", floats.of_nat 3) ∷ (bytes "minutes", floats.of_nat 5) ∷ [],
      )
      ∷ (bytes "disk_low", (bytes "min_free_gb", floats.of_nat 15) ∷ [])
      ∷ (bytes "wallet_backup_missing", [])
      ∷ (bytes "memory_high", (bytes "pct", floats.of_nat 85) ∷ [])
      ∷ (bytes "fds_high", (bytes "pct", floats.of_nat 80) ∷ [])
      ∷ (bytes "backup_stale", [])
      ∷ (bytes "rpc_unreachable", (bytes "minutes", floats.of_nat 5) ∷ [])
      ∷ (bytes "momentums_stalled", (bytes "minutes", floats.of_nat 5) ∷ [])
      ∷ (
        bytes "pillar_missed",
        (bytes "minutes", floats.of_nat 30) ∷ (bytes "missed", floats.of_nat 2) ∷ [],
      )
      ∷ (bytes "update_available", [])
      ∷ []

  abbrev pub or_empty : Option (Dict Text Float64) → Dict Text Float64
  or_empty none = []
  or_empty (some m) = m

  -- A missing key reads as 0.
  abbrev pub float_or_zero : Option Float64 → Float64
  float_or_zero none = floats.of_nat 0
  float_or_zero (some v) = v

  unfoldable pub default_rule : Text → RuleConfig
  default_rule name = record {
    enabled = not (disabled_by_default name);
    thresholds = or_empty (get name default_thresholds);
  }

  unfoldable pub default_rules : List AlertInfo → Dict Text RuleConfig
  default_rules [] = []
  default_rules (a ∷ as') =
      let rest = default_rules as' in
      if a.relay then rest else put a.name (default_rule a.name) rest

  unfoldable pub default_config : Config
  default_config = record {
    relay_url = default_relay_url;
    node_id = [];
    secret = [];
    name = [];
    pillar_name = [];
    interval = default_interval;
    rules = default_rules alerts;
  }

  unfoldable pub threshold : RuleConfig → Text → Text → Float64
  threshold r name key = elim (get key r.thresholds) [
    | some v ↦ v
    | none ↦ float_or_zero (get key (or_empty (get name default_thresholds)))
  ]

  unfoldable pub clamp_threshold : Text → Float64 → Float64 → Float64
  clamp_threshold field value default =
      if floats.gt (floats.of_nat 0) value
      then default
      else if field == bytes "pct" && floats.gt value (floats.of_nat 100)
      then floats.of_nat 100
      else if is_minutes field && floats.gt value (floats.of_nat max_window_minutes)
      then floats.of_nat max_window_minutes
      else value

  abbrev pub value_or : Float64 → Option Float64 → Float64
  value_or v none = v
  value_or v (some w) = w

  -- The loop over the default thresholds of one rule.
  unfoldable pub fill_thresholds : Dict Text Float64 → Dict Text Float64 → Dict Text Float64
  fill_thresholds [] m = m
  fill_thresholds ((k, v) ∷ defaults) m =
      fill_thresholds defaults (put k (clamp_threshold k (value_or v (get k m)) v) m)

  unfoldable pub fill_rule : Text → Dict Text Float64 → Option RuleConfig → RuleConfig
  fill_rule name defaults none = default_rule name
  fill_rule name defaults (some rc) = record rc {
    thresholds = fill_thresholds defaults rc.thresholds;
  }

  -- The loop of `Load` over the rules.
  unfoldable pub fill_rules :
      Dict Text (Dict Text Float64) → Dict Text RuleConfig → Dict Text RuleConfig
  fill_rules [] rules = rules
  fill_rules ((name, defaults) ∷ rest) rules =
      fill_rules rest (put name (fill_rule name defaults (get name rules)) rules)

  -- None for a bad interval.
  unfoldable pub load_interval : Parsers → Text → Option Duration
  load_interval parsers text =
      if text == [] then some default_interval else (elim (parsers.parse_duration text) [
        | none ↦ none
        | some d ↦ if ltb d (5 * second) then none else some d
      ])

  unfoldable pub load : Parsers → ConfigFile → Option Config
  load parsers file = elim (load_interval parsers file.interval_text) [
    | none ↦ none
    | some d ↦ some (record file.config {
      interval = d;
      relay_url = if file.config.relay_url == [] then default_relay_url else file.config.relay_url;
      rules = fill_rules default_thresholds file.config.rules;
    })
  ]

  -- The value of `<alert>.<threshold>`, or why it is refused.
  unfoldable pub checked_value : Text → Option Float64 → Result SetError Float64
  checked_value field none = err not_number
  checked_value field (some f) =
      if floats.gt (floats.of_nat 0) f
      then err negative
      else if field == bytes "pct" && floats.gt f (floats.of_nat 100)
      then err above_percent
      else if is_minutes field && floats.gt f (floats.of_nat max_window_minutes)
      then err above_window
      else ok f

  unfoldable pub set_field :
      Parsers → Text → Text → Text → Dict Text Float64 → RuleConfig → Result SetError RuleConfig
  set_field parsers alert field value defaults rc =
      if field == bytes "enabled"
      then (elim (parsers.parse_bool value) [
        | none ↦ err not_boolean
        | some b ↦ ok (record rc { enabled = b })
      ])
      else (elim (get field defaults) [
        | none ↦ err unknown_setting
        | some _ ↦ elim (checked_value field (parsers.parse_float value)) [
          | err e ↦ err e
          | ok f ↦ ok (record rc { thresholds = put field f rc.thresholds })
        ]
      ])

  unfoldable pub rule_or_default : Text → Option RuleConfig → RuleConfig
  rule_or_default alert none = default_rule alert
  rule_or_default alert (some rc) = rc

  unfoldable pub set_rule : Parsers → Text → Text → Text → Config → Result SetError Config
  set_rule parsers alert field value c = elim (get alert default_thresholds) [
    | none ↦ err unknown_alert
    | some defaults ↦
        elim (set_field parsers alert field value defaults
          (rule_or_default alert (get alert c.rules))) [
            | err e ↦ err e
            | ok rc ↦ ok (record c { rules = put alert rc c.rules })
          ]
  ]

  unfoldable pub set : Parsers → Text → Text → Config → Result SetError Config
  set parsers key value c = elim (cut_dot key) [
    | none ↦ err no_dot
    | some (alert, field) ↦
        if alert == bytes "pillar" && field == bytes "name"
        then ok (record c { pillar_name = parsers.trim_space value })
        else set_rule parsers alert field value c
  ]
