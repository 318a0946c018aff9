-- ===== src/Relay/Store/Laws.antt =====
-- What the relay's delivery relies on of a store, and that the in-memory store keeps it.
use nomctl.Prelude.{◌≡◌, refl, Text, text_eq, ok, err, arith, eqb_refl}
use nomctl.Prelude.Dict.{get-put}
use nomctl.Time.{Time}
use nomctl.AlertProto.{State}
use nomctl.Relay.Store.{StoreError, Node, StoreOps}
use nomctl.Relay.Store.Memory.{MemoryStore, key, memory, last_sent, set_last_sent, update_node}

pub record StoreLaws {S : Type 0} (ops : StoreOps S) : Type 0 where
  -- what was recorded is read back
  pub last_sent-set :
      (id alert : Text) (st : State) (at : Time) (s : S)
      → (ops.set_last_sent id alert st at s).0 ≡ ok tt
      → ops.last_sent id alert (ops.set_last_sent id alert st at s).1 ≡ ok (st, at)
  -- a failed record changes no record
  pub set_failed :
      (id alert : Text) (st : State) (at : Time) (s : S) (e : StoreError) (id' alert' : Text)
      → (ops.set_last_sent id alert st at s).0 ≡ err e
      → ops.last_sent id' alert' (ops.set_last_sent id alert st at s).1 ≡ ops.last_sent id' alert' s
  -- an update of a node changes no record
  pub last_sent-update :
      (n : Node) (s : S) (id alert : Text)
      → ops.last_sent id alert (ops.update_node n s).1 ≡ ops.last_sent id alert s

read_back :
    (id alert : Text) (st : State) (at : Time) (m : MemoryStore)
    → last_sent id alert (set_last_sent id alert st at m).1 ≡ ok (st, at)
unfolding last_sent set_last_sent
read_back id alert st at m =
    ground
      (arith, eqb_refl (key id alert), get-put (key id alert) (key id alert) (st, at) m.last_sent)

never_fails :
    (id alert : Text) (st : State) (at : Time) (m : MemoryStore)
    → (set_last_sent id alert st at m).0 ≡ ok tt
unfolding set_last_sent
never_fails id alert st at m = refl

kept :
    (n : Node) (m : MemoryStore) (id alert : Text)
    → last_sent id alert (update_node n m).1 ≡ last_sent id alert m
unfolding last_sent update_node
kept n m id alert = ground arith

-- The in-memory store keeps the laws.
pub memory_laws : StoreLaws memory
memory_laws = record {
  last_sent-set = λ id alert st at m _. read_back id alert st at m;
  set_failed =
      λ id alert st at m e id' alert' h. absurd (ground (arith, never_fails id alert st at m));
  last_sent-update = kept;
}
