-- ===== src/Relay/Store/Memory/Nodes.antt =====
-- Nodes of the in-memory store: each stands under its id, and no two of a chat share a name.
use nomctl.Prelude.{
  ◌≡◌, sym, ◌∙◌, Bool, false, ◌&&◌, some, [], ◌∷◌, Text, text_eq, text_eqb_iff, int_eq, int_eqb_iff,
  ◌==◌, any, arith, Bool-cases, Option-cases, inl, inr, ◌⊎◌,
}
use nomctl.Prelude.Dict.{Dict, values, get, put, get-put, get-remove}
use nomctl.Relay.Store.{Node}
use nomctl.Relay.Store.Memory.{MemoryStore, create_node, update_node, delete_node, forget}

pub record HasNodes (m : MemoryStore) : Type 0 where
  pub keyed : (k : Text) (n : Node) → get k m.nodes ≡ some n → n.id ≡ k
  pub unique :
      (k j : Text) (n o : Node)
      → get k m.nodes ≡ some n
      → get j m.nodes ≡ some o
      → n.chat_id ≡ o.chat_id
      → n.name ≡ o.name
      → k ≡ j

-- What no value passes, the value at a key does not pass.
any-get :
    (p : Node → Bool) (k : Text) (m : Dict Text Node) (n : Node)
    → any p (values m) ≡ false
    → get k m ≡ some n
    → p n ≡ false
unfolding get
any-get p k [] n h e = cc
any-get p k ((j, w) ∷ m) n h e = ground (arith, any-get p k m n)

-- A write that keeps the rule: the id is the key, and no other key has its chat and name.
HasNodes-put :
    (n : Node) (m : MemoryStore)
    → HasNodes m
    → ((j : Text) (o : Node)
        → get j m.nodes ≡ some o
        → n.chat_id ≡ o.chat_id
        → n.name ≡ o.name
        → n.id ≡ j)
    → HasNodes (record m { nodes = put n.id n m.nodes })
HasNodes-put n m v alone = record {
  keyed = λ k a e. ground (arith, get-put n.id k n m.nodes, text_eqb_iff n.id k, v.keyed k a);
  unique = λ k j a b p q same_chat same_name. ground (
    arith,
    get-put n.id k n m.nodes,
    get-put n.id j n m.nodes,
    text_eqb_iff n.id k,
    text_eqb_iff n.id j,
    v.unique k j a b,
    alone j b,
    alone k a,
  );
}

-- Creating a node, whether its name is free or taken, keeps each node under its id and the names
-- of a chat's nodes apart.
pub create_node-HasNodes : (n : Node) (m : MemoryStore) → HasNodes m → HasNodes (create_node n m).1
unfolding create_node
create_node-HasNodes n m v =
    let p = λ (other : Node). other.chat_id == n.chat_id && other.name == n.name in
    elim (Bool-cases (any p (values m.nodes))) [
      | inl taken ↦ rw taken v
      | inr free ↦ rw free (
          HasNodes-put n m v λ j o there same_chat same_name. absurd (
            ground (
              arith,
              any-get p j m.nodes o free there,
              int_eqb_iff o.chat_id n.chat_id,
              text_eqb_iff o.name n.name,
            )))
    ]

update_node-cases :
    (n : Node) (m : MemoryStore)
    → ((update_node n m).1 ≡ m)
      ⊎ ((o : Node) × (get n.id m.nodes ≡ some o)
          × ((update_node n m).1 ≡ record m { nodes = put n.id n m.nodes }))
unfolding update_node
update_node-cases n m = elim (Option-cases (get n.id m.nodes)) [
  | inl gone ↦ inl (ground arith)
  | inr (o, there) ↦ inr (o, there, ground arith)
]

-- An update that leaves the chat and the name of the node that it replaces keeps each node under
-- its id and the names of a chat's nodes apart.
pub update_node-HasNodes :
    (n : Node) (m : MemoryStore)
    → HasNodes m
    → ((o : Node) → get n.id m.nodes ≡ some o → (n.chat_id ≡ o.chat_id) × (n.name ≡ o.name))
    → HasNodes (update_node n m).1
update_node-HasNodes n m v same = elim (update_node-cases n m) [
  | inl gone ↦ rw gone v
  | inr (o, there, done) ↦ rw done (
      HasNodes-put n m v λ j other at same_chat same_name.
        let kept = same o there in
        v.unique n.id j o other there at (sym kept.0 ∙ same_chat) (sym kept.1 ∙ same_name))
]

forget-HasNodes : (id : Text) (m : MemoryStore) → HasNodes m → HasNodes (forget id m)
unfolding forget
forget-HasNodes id m v = record {
  keyed = λ k n. ground (arith, get-remove id k m.nodes, v.keyed k n);
  unique =
      λ k j n o. ground (arith, get-remove id k m.nodes, get-remove id j m.nodes, v.unique k j n o);
}

-- Forgetting a node keeps the rule.
pub delete_node-HasNodes :
    (id : Text) (m : MemoryStore) → HasNodes m → HasNodes (delete_node id m).1
unfolding delete_node
delete_node-HasNodes id m v = elim (Option-cases (get id m.nodes)) [
  | inl gone ↦ rw (gone, delete_node) v
  | inr (n, there) ↦ rw (there, delete_node) (forget-HasNodes id m v)
]
