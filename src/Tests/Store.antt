-- ===== src/Tests/Store.antt =====
-- The in-memory store with a pairing code, two nodes and a mute.
use nomctl.Prelude.{
  ◌*◌, ◌≤◌, ◌≡◌, refl, false, some, [], ◌∷◌, Text, bytes, text_eq, arith, pos, ok, Lacks,
}
use nomctl.Prelude.Dict.{get, put}
use nomctl.Time.{minute}
use nomctl.AlertProto.{empty_summary}
use nomctl.Relay.Store.{Node, Mute}
use nomctl.Relay.Store.Memory.{
  MemoryStore, max_codes_per_chat, new_memory_store, create_code, create_node, get_node, set_mute,
}
use nomctl.Relay.Store.Memory.Codes.{
  redeemed, redeemed-le_one, unused_codes, unused_codes-create_code,
}
use nomctl.Relay.Store.Memory.Nodes.{HasNodes}

abbrev with_code : MemoryStore
with_code = (create_code 0 (pos 7) (bytes "ABCD2345") (10 * minute) new_memory_store).1

redeemed-le_one_example :
    redeemed
      (bytes "ABCD2345")
      with_code
      ((bytes "ABCD2345", minute) ∷ (bytes "ABCD2345", 2 * minute) ∷ [])
    ≤ 1
redeemed-le_one_example =
    redeemed-le_one (bytes "ABCD2345") with_code
      ((bytes "ABCD2345", minute) ∷ (bytes "ABCD2345", 2 * minute) ∷ [])

unused_codes-create_code_example : unused_codes 0 (pos 7) with_code ≤ max_codes_per_chat
unused_codes-create_code_example =
    unused_codes-create_code 0 (10 * minute) (pos 7) (pos 7) (bytes "ABCD2345") new_memory_store
      (omega arith)

abbrev node_at : Text → Text → Node
node_at id name = record {
  id = id;
  chat_id = pos 7;
  name = name;
  host = bytes "vps";
  version = bytes "v1.0.0";
  secret = bytes "secret";
  created = minute;
  last_seen = minute;
  silent = false;
  blocked = false;
  summary = empty_summary;
}

abbrev pub first : Node
first = node_at (bytes "n_1") (bytes "one")

abbrev second_node : Node
second_node = node_at (bytes "n_2") (bytes "two")

abbrev pub one_node : MemoryStore
one_node = (create_node first new_memory_store).1

abbrev two_nodes : MemoryStore
two_nodes = (create_node second_node one_node).1

pub no_nodes : HasNodes new_memory_store
unfolding get
no_nodes = record { keyed = λ k n e. cc; unique = λ k j n o e f. cc }

get-first : get (bytes "n_1") one_node.nodes ≡ some first
unfolding get create_node put
get-first = refl

get_node_first : get_node (bytes "n_1") two_nodes ≡ ok first
unfolding get_node get create_node put
get_node_first = refl

Lacks-first : Lacks 0 (bytes "n_1")
Lacks-first = (omega arith, (omega arith, (omega arith, tt)))

Lacks-second : Lacks 0 (bytes "n_2")
Lacks-second = (omega arith, (omega arith, (omega arith, tt)))

abbrev disk_mute : Mute
disk_mute = record { node_id = bytes "n_1"; alert = bytes "disk_low"; until = 9 * minute }

abbrev with_mute : MemoryStore
with_mute = (set_mute disk_mute two_nodes).1
