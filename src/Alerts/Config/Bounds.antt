-- ===== src/Alerts/Config/Bounds.antt =====
-- The bounds of a threshold: what `Set` accepts, and what a hand-edited file is bent to.
use nomctl.Prelude.{◌≡◌, Option, none, some, Text, text_eq, ok, arith}
use nomctl.AlertProto.{Float64}
use nomctl.Metrics.{Floats}
use nomctl.Alerts.Config.{clamp_threshold, checked_value}

module _ (floats : Floats) where
  -- A value that the command `set` accepts is one that loading a file leaves as it is.
  pub clamp_threshold-checked_value :
      (field : Text) (parsed : Option Float64) (f default : Float64)
      → checked_value floats field parsed ≡ ok f
      → clamp_threshold floats field f default ≡ f
  unfolding checked_value clamp_threshold
  clamp_threshold-checked_value field none f default h = cc
  clamp_threshold-checked_value field (some g) f default h = ground arith
