-- ===== src/Metrics.antt =====
-- The renderings of internal/metrics/sample.go, and what they and the rules take of float64.
pub mod Commas
pub mod Units
use nomctl.Prelude.{
  ℕ, zero, suc, ◌+◌, ◌*◌, ◌/◌, ◌%◌, Bool, true, [], ◌∷◌, ◌++◌, Text, bytes, ltb, leb, length, take,
  drop, get_or, format_nat, if◌then◌else◌,
}
use nomctl.Time.{Duration, second}
use nomctl.AlertProto.{Float64}

-- Operations of float64: the conversion of an integer and back towards zero, product, quotient and
-- order, and the renderings `%.0f` and `%.1f`.
pub record Floats : Type 0 where
  pub of_nat : ℕ → Float64
  pub to_nat : Float64 → ℕ
  pub times : Float64 → Float64 → Float64
  pub over : Float64 → Float64 → Float64
  pub gt : Float64 → Float64 → Bool
  pub whole : Float64 → Text
  pub one_decimal : Float64 → Text

-- The loop of `HumanBytes` from `m`: the divisor and the place of the unit's letter. A uint64 is
-- below 1024 after six divisions, so that fuel 6 is enough.
pub scale : ℕ → ℕ → ℕ → ℕ → ℕ × ℕ
scale zero m div exp = (div, exp)
scale (suc f) m div exp =
    let rest = scale f (m / 1024) (div * 1024) (exp + 1) in if leb 1024 m then rest else (div, exp)

unfoldable pub human_bytes : Floats → ℕ → Text
unfolding scale
human_bytes floats n =
    let (div, exp) = scale 6 (n / 1024) 1024 0 in
    if ltb n 1024
    then format_nat n ++ bytes " B"
    else floats.one_decimal (floats.over (floats.of_nat n) (floats.of_nat div))
      ++ bytes " "
      ++ get_or (bytes "KMGTPE") exp 0 ∷ bytes "iB"

-- `d.Round(time.Second)` in seconds, and its two leading units. A negative duration counts as 0.
unfoldable pub human_duration : Duration → Text
human_duration d =
    let total = (d + 500000000) / second in
    let days = total / 86400 in
    let hours = total / 3600 % 24 in
    let mins = total / 60 % 60 in
    let secs = total % 60 in
    if ltb 0 days
    then format_nat days ++ bytes "d " ++ format_nat hours ++ bytes "h"
    else if ltb 0 hours
    then format_nat hours ++ bytes "h " ++ format_nat mins ++ bytes "m"
    else if ltb 0 mins
    then format_nat mins ++ bytes "m " ++ format_nat secs ++ bytes "s"
    else format_nat secs ++ bytes "s"

-- The loop of `Commas`: groups of three, each behind a comma if something stands before it. Each
-- round takes a digit at least, so that the number of digits is fuel enough.
unfoldable pub groups : ℕ → Bool → Text → Text
groups zero sep s = s
groups (suc f) sep [] = []
groups (suc f) sep (c ∷ s) =
    (if sep then b',' ∷ [] else []) ++ take 3 (c ∷ s) ++ groups f true (drop 3 (c ∷ s))

unfoldable pub commas : ℕ → Text
commas n =
    let s = format_nat n in
    let pre = length s % 3 in
    if leb (length s) 3 then s else take pre s ++ groups (length s) (ltb 0 pre) (drop pre s)
