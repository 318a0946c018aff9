-- ===== src/Service.antt =====
-- The node's systemd unit, of internal/service/service.go: `Status`, `Exists`, `Start`, `Stop`. A unit
-- that systemd does not know has no entry in the host's `running`. A failed query stands for every
-- exit code but those that are an answer.
pub mod Keeps
use nomctl.Prelude.{
  Bool, true, false, not, Option, none, some, ◌∷◌, ◌++◌, Text, bytes, text_eq, if◌then◌else◌,
}
use nomctl.Prelude.Dict.{get}
use nomctl.Host.{Host, World, Act, ◌>>=◌, ◌>>◌, pure, raise, or_else, set_service}
use nomctl.Host.Trees.{query}

pub data State : Type 0 where
  inactive active not_found : State

abbrev state_of : Option Bool → State
state_of none = not_found
state_of (some true) = active
state_of (some false) = inactive

abbrev is_known : Option Bool → Bool
is_known none = false
is_known (some on) = true

abbrev pub is_active : State → Bool
is_active active = true
is_active _ = false

module _ (world : World) where
  unfoldable pub status : Text → Act State
  status name =
      query world (bytes "cannot determine state of " ++ name) (λ h. state_of (get name h.running))

  unfoldable pub service_exists : Text → Act Bool
  service_exists name =
      query world (bytes "cannot query unit " ++ name) (λ h. is_known (get name h.running))

  abbrev systemctl : Bool → Text → Text → Act Unit
  systemctl on verb name =
      or_else (set_service world on name)
        (λ e. raise (bytes "failed to " ++ verb ++ b' ' ∷ name ++ bytes " service: " ++ e))

  abbrev start_known : Text → Act Unit
  start_known name = do
    st ← status name
    if is_active st then pure tt else systemctl true (bytes "start") name

  unfoldable pub start : Text → Act Unit
  start name = do
    there ← service_exists name
    if there then start_known name else raise (name ++ bytes ": service does not exist")

  unfoldable pub stop : Text → Act Unit
  stop name = do
    st ← status name
    if is_active st then systemctl false (bytes "stop") name else pure tt
