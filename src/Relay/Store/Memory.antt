-- ===== src/Relay/Store/Memory.antt =====
-- `memoryStore` of internal/relay/store.go. Go ranges over a map in any order; the model in that of
-- the association list.
pub mod Codes
pub mod Nodes
pub mod Keys
pub mod Mutes
use nomctl.Prelude.{
  ℕ, ◌+◌, Bool, true, false, not, ◌&&◌, ◌||◌, Option, none, some, List, [], ◌∷◌, ◌++◌, Text, bytes,
  text_eq, ◌==◌, int_eq, nat_eq, ltb, leb, length, take, get_or, count_if, keep, any, ℤ, Result, ok,
  err, sort_by, text_ltb, if◌then◌else◌,
}
use nomctl.Prelude.Dict.{Dict, values, get, put, remove, delete_where}
use nomctl.Time.{Time}
use nomctl.AlertProto.{State}
use nomctl.Relay.Store.{
  StoreError, not_found, code_invalid, too_many_codes, name_taken, Node, Mute, Write, StoreOps,
}

abbrev pub max_codes_per_chat : ℕ
max_codes_per_chat = 5

pub record CodeRec : Type 0 where
  pub chat_id : ℤ
  pub expires : Time
  pub used : Bool

pub record MemoryStore : Type 0 where
  pub codes : Dict Text CodeRec
  pub nodes : Dict Text Node
  pub mutes : Dict Text Time
  pub last_sent : Dict Text (State × Time)

abbrev pub new_memory_store : MemoryStore
new_memory_store = record { codes = []; nodes = []; mutes = []; last_sent = [] }

-- `nodeID + "\x00" + alert`
abbrev pub key : Text → Text → Text
key node_id alert = node_id ++ 0 ∷ alert

-- `c.chatID == chatID && !c.used && c.expires.After(time.Now())`
abbrev pub is_unused : Time → ℤ → CodeRec → Bool
is_unused wall chat c = c.chat_id == chat && not c.used && ltb wall c.expires

unfoldable pub create_code : Time → ℤ → Text → Time → Write MemoryStore Unit
create_code wall chat code expires m =
    if leb max_codes_per_chat (count_if (is_unused wall chat) (values m.codes))
    then (err too_many_codes, m)
    else (
      ok tt,
      record m {
        codes = put code (record { chat_id = chat; expires = expires; used = false }) m.codes;
      },
    )

-- The part of `ConsumeCode` after the lookup.
consume : Text → Time → Option CodeRec → Write MemoryStore ℤ
consume code now none m = (err code_invalid, m)
consume code now (some c) m =
    if c.used || not (ltb now c.expires)
    then (err code_invalid, m)
    else (ok c.chat_id, record m { codes = put code (record c { used = true }) m.codes })

unfoldable pub consume_code : Text → Time → Write MemoryStore ℤ
unfolding consume
consume_code code now m = consume code now (get code m.codes) m

unfoldable pub create_node : Node → Write MemoryStore Unit
create_node n m =
    if any (λ other. other.chat_id == n.chat_id && other.name == n.name) (values m.nodes)
    then (err name_taken, m)
    else (ok tt, record m { nodes = put n.id n m.nodes })

unfoldable pub get_node : Text → MemoryStore → Result StoreError Node
get_node id m = elim (get id m.nodes) [ none ↦ err not_found | some n ↦ ok n ]

unfoldable pub list_nodes : ℤ → MemoryStore → Result StoreError (List Node)
list_nodes chat m =
    ok (sort_by (λ a b. text_ltb a.name b.name) (keep (λ n. n.chat_id == chat) (values m.nodes)))

unfoldable pub update_node : Node → Write MemoryStore Unit
update_node n m = elim (get n.id m.nodes) [
  | none ↦ (err not_found, m)
  | some _ ↦ (ok tt, record m { nodes = put n.id n m.nodes })
]

-- `len(k) > len(id) && k[:len(id)] == id && k[len(id)] == 0`
unfoldable pub belongs : Text → Text → Bool
belongs id k = ltb (length id) (length k) && take (length id) k == id && get_or k (length id) 0 == 0

-- What `DeleteNode` removes once it has found the node.
unfoldable pub forget : Text → MemoryStore → MemoryStore
forget id m = record m {
  nodes = remove id m.nodes;
  mutes = delete_where (λ k _. belongs id k) m.mutes;
  last_sent = delete_where (λ k _. belongs id k) m.last_sent;
}

unfoldable pub delete_node : Text → Write MemoryStore Unit
delete_node id m = elim (get id m.nodes) [
  | none ↦ (err not_found, m)
  | some _ ↦ (ok tt, forget id m)
]

unfoldable pub silent_candidates : Time → MemoryStore → Result StoreError (List Node)
silent_candidates before m = ok (
    sort_by (λ a b. text_ltb a.id b.id)
      (keep (λ n. not n.silent && ltb n.last_seen before) (values m.nodes)))

unfoldable pub set_mute : Mute → Write MemoryStore Unit
set_mute mu m = (ok tt, record m { mutes = put (key mu.node_id mu.alert) mu.until m.mutes })

unfoldable pub clear_mute : Text → Text → Write MemoryStore Unit
clear_mute id alert m = (ok tt, record m { mutes = remove (key id alert) m.mutes })

abbrev pub is_after : Option Time → Time → Bool
is_after none now = false
is_after (some until) now = ltb now until

unfoldable pub muted : Text → Text → Time → MemoryStore → Result StoreError Bool
muted id alert now m =
    ok (
      is_after (get (key id alert) m.mutes) now
      || is_after (get (key id (bytes "all")) m.mutes) now)

-- No record reads as the empty state and the zero time.
unfoldable pub last_sent : Text → Text → MemoryStore → Result StoreError (State × Time)
last_sent id alert m = elim (get (key id alert) m.last_sent) [
  | none ↦ ok (State.other [], 0)
  | some (st, at) ↦ ok (st, at)
]

unfoldable pub set_last_sent : Text → Text → State → Time → Write MemoryStore Unit
set_last_sent id alert st at m =
    (ok tt, record m { last_sent = put (key id alert) (st, at) m.last_sent })

abbrev pub memory : StoreOps MemoryStore
memory = record {
  create_code = create_code;
  consume_code = consume_code;
  create_node = create_node;
  get_node = get_node;
  list_nodes = list_nodes;
  update_node = update_node;
  delete_node = delete_node;
  silent_candidates = silent_candidates;
  set_mute = set_mute;
  clear_mute = clear_mute;
  muted = muted;
  last_sent = last_sent;
  set_last_sent = set_last_sent;
}
