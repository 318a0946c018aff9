-- ===== src/Relay/Store.antt =====
-- The relay's persistence of internal/relay/store.go: the data, and `Store` as an interface.
-- An operation that writes returns its error and the store that it leaves; one that only reads
-- returns a value. `StoreError.failed` is any error that the package does not name.
pub mod Memory
pub mod Laws
use nomctl.Prelude.{ℕ, Bool, List, Text, ℤ, Result}
use nomctl.Time.{Time}
use nomctl.AlertProto.{State, Summary}

pub data StoreError : Type 0 where
  not_found code_invalid too_many_codes name_taken failed : StoreError

pub record Node : Type 0 where
  pub id : Text
  pub chat_id : ℤ
  pub name : Text
  pub host : Text
  pub version : Text
  pub secret : Text
  pub created : Time
  pub last_seen : Time
  pub silent : Bool
  pub blocked : Bool
  pub summary : Summary

pub record Mute : Type 0 where
  pub node_id : Text
  pub alert : Text
  pub until : Time

abbrev pub Write : Type 0 → Type 0 → Type 0
Write S A = S → Result StoreError A × S

-- `create_code` is given the reading of the wall clock, which the in-memory store takes itself.
pub record StoreOps (S : Type 0) : Type 0 where
  pub create_code : Time → ℤ → Text → Time → Write S Unit
  pub consume_code : Text → Time → Write S ℤ
  pub create_node : Node → Write S Unit
  pub get_node : Text → S → Result StoreError Node
  pub list_nodes : ℤ → S → Result StoreError (List Node)
  pub update_node : Node → Write S Unit
  pub delete_node : Text → Write S Unit
  pub silent_candidates : Time → S → Result StoreError (List Node)
  pub set_mute : Mute → Write S Unit
  pub clear_mute : Text → Text → Write S Unit
  pub muted : Text → Text → Time → S → Result StoreError Bool
  pub last_sent : Text → Text → S → Result StoreError (State × Time)
  pub set_last_sent : Text → Text → State → Time → Write S Unit
