-- ===== src/Relay/Store/Memory/Keys.antt =====
-- The composed keys of mutes and sent records, and what deleting a node removes.
use nomctl.Prelude.{
  ℕ, ◌≡◌, ◌≢◌, ◌⊎◌, refl, sym, true, false, [], ◌∷◌, Text, text_eq, text_eqb_iff, nat_eq, arith,
  Lacks, join-injective, eqb_refl, bytes, ok, err, Option-cases, Bool-cases, inl, inr,
}
use nomctl.Prelude.Dict.{get, get-remove, get-delete_where}
use nomctl.Time.{Time}
use nomctl.AlertProto.{State}
use nomctl.Relay.Store.{Node, not_found}
use nomctl.Relay.Store.Memory.{
  MemoryStore, key, belongs, get_node, forget, delete_node, muted, last_sent,
}

belongs-key : (id alert : Text) → belongs id (key id alert) ≡ true
unfolding belongs
belongs-key [] alert = ground arith
belongs-key (a ∷ id) alert = ground (arith, belongs-key id alert)

belongs-cons :
    (a c : ℕ) (id k : Text) → belongs (a ∷ id) (c ∷ k) ≡ true → (c ≡ a) × (belongs id k ≡ true)
unfolding belongs
belongs-cons a c id k h = ground arith

belongs-nil : (a : ℕ) (id : Text) → belongs (a ∷ id) [] ≢ true
unfolding belongs
belongs-nil a id h = ground arith

belongs-head : (k : Text) → belongs [] k ≡ true → (alert : Text) × (k ≡ 0 ∷ alert)
unfolding belongs
belongs-head [] h = absurd (ground arith)
belongs-head (c ∷ k) h = (k, ground arith)

-- The bytes before the separator are the id.
belongs→key : (id k : Text) → belongs id k ≡ true → (alert : Text) × (k ≡ key id alert)
belongs→key [] k h = belongs-head k h
belongs→key (a ∷ id) [] h = absurd (belongs-nil a id h)
belongs→key (a ∷ id) (c ∷ k) h =
    let (same, rest) = belongs-cons a c id k h in
    let (alert, e) = belongs→key id k rest in (alert, cc)

-- A key belongs to the node that it was made for, and to no other.
pub belongs_ne :
    (id other alert : Text)
    → Lacks 0 id
    → Lacks 0 other
    → id ≢ other
    → belongs id (key other alert) ≡ false
belongs_ne id other alert p q ne = elim (Bool-cases (belongs id (key other alert))) [
  | inl h ↦
      let (tail, e) = belongs→key id (key other alert) h in
      absurd (ne (sym (join-injective 0 other id alert tail q p e).0))
  | inr h ↦ h
]

-- What the store answers about a node.
pub record SameNode (id : Text) (m m' : MemoryStore) : Type 0 where
  pub node : get_node id m' ≡ get_node id m
  pub mutes : (alert : Text) (now : Time) → muted id alert now m' ≡ muted id alert now m
  pub sent : (alert : Text) → last_sent id alert m' ≡ last_sent id alert m

pub record IsForgotten (id : Text) (m : MemoryStore) : Type 0 where
  pub node : get_node id m ≡ err not_found
  pub mutes : (alert : Text) (now : Time) → muted id alert now m ≡ ok false
  pub sent : (alert : Text) → last_sent id alert m ≡ ok (State.other [], 0)

IsForgotten-forget : (id : Text) (m : MemoryStore) → IsForgotten id (forget id m)
unfolding forget get_node muted last_sent
IsForgotten-forget id m = record {
  node = ground (arith, get-remove id id m.nodes, eqb_refl id);
  mutes = λ alert now. ground (
    arith,
    belongs-key id alert,
    belongs-key id (bytes "all"),
    get-delete_where (belongs id) (key id alert) m.mutes,
    get-delete_where (belongs id) (key id (bytes "all")) m.mutes,
  );
  sent = λ alert.
      ground
        (arith, belongs-key id alert, get-delete_where (belongs id) (key id alert) m.last_sent);
}

delete_node-cases :
    (id : Text) (m : MemoryStore)
    → ((get_node id m ≡ err not_found) × ((delete_node id m).1 ≡ m))
      ⊎ ((delete_node id m).1 ≡ forget id m)
unfolding delete_node get_node
delete_node-cases id m = elim (Option-cases (get id m.nodes)) [
  | inl gone ↦ inl (ground arith, ground arith)
  | inr (n, there) ↦ inr (ground arith)
]

-- Deleting a node that is there forgets its record, its mutes and what was sent about it.
pub delete_node-IsForgotten :
    (id : Text) (m : MemoryStore) (n : Node)
    → get_node id m ≡ ok n
    → IsForgotten id (delete_node id m).1
delete_node-IsForgotten id m n h = elim (delete_node-cases id m) [
  | inl gone ↦ absurd (cc (h, gone.0))
  | inr done ↦ rw done (IsForgotten-forget id m)
]

module _ (id other : Text) (p : Lacks 0 id) (q : Lacks 0 other) (ne : id ≢ other) where
  SameNode-forget : (m : MemoryStore) → SameNode other m (forget id m)
  unfolding forget get_node muted last_sent
  SameNode-forget m = record {
    node = ground (arith, text_eqb_iff id other, get-remove id other m.nodes);
    mutes = λ alert now. ground (
      arith,
      belongs_ne id other alert p q ne,
      belongs_ne id other (bytes "all") p q ne,
      get-delete_where (belongs id) (key other alert) m.mutes,
      get-delete_where (belongs id) (key other (bytes "all")) m.mutes,
    );
    sent = λ alert. ground (
      arith,
      belongs_ne id other alert p q ne,
      get-delete_where (belongs id) (key other alert) m.last_sent,
    );
  }

  -- Deleting a node changes nothing that the store answers about another one. Ids hold no zero byte.
  pub delete_node-SameNode : (m : MemoryStore) → SameNode other m (delete_node id m).1
  delete_node-SameNode m = elim (delete_node-cases id m) [
    | inl gone ↦ rw gone.1 (record { node = refl; mutes = λ alert now. refl; sent = λ alert. refl })
    | inr done ↦ rw done (SameNode-forget m)
  ]
