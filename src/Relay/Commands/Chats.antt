-- ===== src/Relay/Commands/Chats.antt =====
-- A command reaches only the nodes of the chat that sent it. The store is the one in memory.
use nomctl.Prelude.{
  ◌≡◌, ◌≢◌, refl, inl, inr, ap, sym, ◌∙◌, Bool, true, not, Option, none, some, List, [], ◌∷◌, Text,
  text_eq, int_eq, ◌==◌, eqb_refl, eqb_ne, ℤ, int_eqb_iff, text_eqb_iff, all, keep, sort_by,
  text_ltb, all-sort_by, Bool-cases, arith,
}
use nomctl.Prelude.Dict.{Dict, values, get, get-remove, Distinct}
use nomctl.Relay.Store.{Node}
use nomctl.Relay.Store.Memory.{MemoryStore, memory, list_nodes, delete_node, forget}
use nomctl.Relay.Store.Memory.Nodes.{HasNodes}
use nomctl.Relay.Server.{Env, Server}
use nomctl.Relay.Commands.{Lang, find_named, on_node, on_nodes, with_node, unpair_node, cmd_unpair}

-- What holds of each entry of a map holds of its values.
all-keep :
    (p q : Node → Bool) (m : Dict Text Node)
    → Distinct m
    → ((k : Text) (n : Node) → get k m ≡ some n → p n ≡ true → q n ≡ true)
    → all q (keep p (values m)) ≡ true
unfolding get
all-keep p q [] d h = refl
all-keep p q ((j, w) ∷ m) (fresh, d) h =
    let first : p w ≡ true → q w ≡ true = h j w (rw eqb_refl) in
    let rest = all-keep p q m d (λ k n e. h k n (ground (arith, text_eqb_iff j k))) in ground arith

all-find_named :
    (lang : Lang) (q : Node → Bool) (name : Text) (ns : List Node) (n : Node)
    → all q ns ≡ true
    → find_named lang name ns ≡ some n
    → q n ≡ true
unfolding find_named
all-find_named lang q name [] n h e = cc
all-find_named lang q name (x ∷ ns) n h e = ground (arith, all-find_named lang q name ns n)

module _ (lang : Lang) (env : Env) (chat : ℤ) (other : Text) (s : Server MemoryStore) (o : Node)
    (distinct : Distinct s.store.nodes) (nodes : HasNodes s.store)
    (there : get other s.store.nodes ≡ some o) (foreign : o.chat_id ≢ chat) where
  -- No node of the chat is the other one.
  foreign_id :
      all (λ n. not (n.id == other)) (keep (λ n. n.chat_id == chat) (values s.store.nodes)) ≡ true
  foreign_id =
      all-keep (λ n. n.chat_id == chat) (λ n. not (n.id == other)) s.store.nodes distinct
        (λ k n e same. elim (Bool-cases (n.id == other)) [
          | inr apart ↦ ground arith
          | inl equal ↦
              (let here : n.id ≡ other = (text_eqb_iff n.id other).0 equal in
                let one : some n ≡ some o =
                  sym e ∙ ap (λ j. get j s.store.nodes) (sym (nodes.keyed k n e) ∙ here) ∙ there in
                let node : n ≡ o = ground arith in
                absurd (
                  foreign (
                    ap (λ (x : Node). x.chat_id) (sym node) ∙ (int_eqb_iff n.chat_id chat).0 same)))
        ])

  delete_node-other : (id : Text) → id ≢ other → get other (delete_node id s.store).1.nodes ≡ some o
  unfolding delete_node forget
  delete_node-other id ne =
      ground (arith, get-remove id other s.store.nodes, eqb_ne id other ne, there)

  cmd_unpair_found :
      (name : Text) (n : Node)
      → find_named lang name (
          sort_by
            (λ a b. text_ltb a.name b.name)
            (keep (λ n. n.chat_id == chat) (values s.store.nodes)))
        ≡ some n
      → n.id ≢ other
  cmd_unpair_found name n found same =
      let apart : not (n.id == other) ≡ true =
        all-find_named lang (λ n. not (n.id == other)) name _ n
          (all-sort_by (λ n. not (n.id == other)) (λ a b. text_ltb a.name b.name) _ foreign_id)
          found in
      ground (arith, text_eqb_iff n.id other)

  store-unpair_node :
      (n : Node) → (unpair_node lang memory env n s).1.store ≡ (delete_node n.id s.store).1
  unfolding unpair_node delete_node
  store-unpair_node n = ground arith

  -- The outcome of `/unpair` by what the search finds.
  on_node-other :
      (name : Text) (found : Option Node)
      → find_named lang name (
          sort_by
            (λ a b. text_ltb a.name b.name)
            (keep (λ n. n.chat_id == chat) (values s.store.nodes)))
        ≡ found
      → get other
          (on_node lang memory env name s
            (λ n. unpair_node lang memory env n s)
            found).1.store.nodes
        ≡ some o
  unfolding on_node
  on_node-other name none e = there
  on_node-other name (some n) e =
      rw (store-unpair_node n) (delete_node-other n.id (cmd_unpair_found name n e))

  -- Over the in-memory store, with one entry for each node and each node under its id: `/unpair` from
  -- a chat leaves a node of another chat as it is, whatever its arguments.
  pub cmd_unpair-other :
      (args : List Text) → get other (cmd_unpair lang memory env chat args s).1.store.nodes ≡ some o
  unfolding cmd_unpair with_node on_nodes list_nodes
  cmd_unpair-other [] = there
  cmd_unpair-other (name ∷ rest) = on_node-other name _ refl
