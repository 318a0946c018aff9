-- ===== src/Alerts/Rules/History.antt =====
-- The history helpers of internal/alerts/rules.go.
use nomctl.Prelude.{
  ◌+◌, ◌-◌, Bool, true, false, Option, none, some, List, [], ◌∷◌, ltb, leb, if◌then◌else◌,
}
use nomctl.Time.{Duration}
use nomctl.Alerts.Sample.{Sample}
use nomctl.Alerts.Daemon.{drop_before}

-- The last element of a list with this first one.
abbrev pub newest : Sample → List Sample → Sample
newest x [] = x
newest x (y ∷ ys) = newest y ys

-- `lastN(h, 2)`, none where it is shorter.
abbrev pub last_two : List Sample → Option (Sample × Sample)
last_two [] = none
last_two (a ∷ []) = none
last_two (a ∷ b ∷ []) = some (a, b)
last_two (a ∷ b ∷ c ∷ h) = last_two (b ∷ c ∷ h)

-- The samples from the first on that was taken within `d` of the newest.
unfoldable pub since : List Sample → Duration → List Sample
since [] d = []
since (a ∷ h) d = drop_before ((newest a h).taken - d) (a ∷ h)

-- `span + interval >= d`, where the two differences may be negative.
unfoldable pub covers : List Sample → Duration → Bool
covers [] d = false
covers (a ∷ []) d = false
covers (a ∷ b ∷ h) d = leb (d + a.taken + a.taken) ((newest b h).taken + b.taken)

-- The loop of `pillarMissed` that restarts at the last sample whose expected count is less than that
-- of the sample before.
abbrev pub has_rollover : Sample → List Sample → Bool
has_rollover a [] = false
has_rollover a (b ∷ h) =
    let rest = has_rollover b h in
    if ltb b.node.pillar.expected a.node.pillar.expected then true else rest

unfoldable pub after_rollover : List Sample → List Sample
after_rollover [] = []
after_rollover (a ∷ h) = let rest = after_rollover h in if has_rollover a h then rest else a ∷ h
