-- ===== src/Tests/Commands.antt =====
-- A command from one of two chats, each of which has a node of the same name.
use nomctl.Prelude.{◌≡◌, refl, none, some, [], ◌∷◌, bytes, text_eq, ◌==◌, pos, arith}
use nomctl.Prelude.Dict.{get, put, Distinct}
use nomctl.Relay.Store.{Node}
use nomctl.Relay.Store.Memory.{MemoryStore, memory, create_node}
use nomctl.Relay.Store.Memory.Nodes.{HasNodes, create_node-HasNodes}
use nomctl.Relay.Server.{Server, new_server}
use nomctl.Relay.Commands.{Lang, cmd_unpair}
use nomctl.Relay.Commands.Chats.{cmd_unpair-other}
use nomctl.Tests.Store.{first, one_node, no_nodes}
use nomctl.Tests.Rules.{floats}
use nomctl.Tests.Relay.{answering}

abbrev lang : Lang
lang = record {
  fields = λ s. s ∷ [];
  to_lower = λ s. s;
  equal_fold = λ s t. s == t;
  quote = λ s. s;
  atoi = λ s. none;
  parse_duration = λ s. none;
  floats = floats;
  public_url = [];
  url_host = λ s. none;
}

abbrev foreign : Node
foreign = record first { id = bytes "n_2"; chat_id = pos 8 }

abbrev two_chats : Server MemoryStore
two_chats = new_server (create_node foreign one_node).1

two_chats-Distinct : Distinct two_chats.store.nodes
unfolding get create_node put new_server
two_chats-Distinct = (refl, (refl, tt))

two_chats-HasNodes : HasNodes two_chats.store
unfolding new_server
two_chats-HasNodes = create_node-HasNodes foreign one_node (create_node-HasNodes first _ no_nodes)

first_there : get (bytes "n_1") two_chats.store.nodes ≡ some first
unfolding get create_node put new_server
first_there = refl

cmd_unpair-other_example :
    get
      (bytes "n_1")
      (cmd_unpair lang memory (answering none) (pos 8) (bytes "one" ∷ []) two_chats).1.store.nodes
    ≡ some first
cmd_unpair-other_example =
    cmd_unpair-other lang (answering none) (pos 8) (bytes "n_1") two_chats first two_chats-Distinct
      two_chats-HasNodes first_there (λ e. ground arith) (bytes "one" ∷ [])
