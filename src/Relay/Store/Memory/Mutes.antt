-- ===== src/Relay/Store/Memory/Mutes.antt =====
-- Muting: which alerts of which node a mute silences.
use nomctl.Prelude.{
  ◌≡◌, ◌≢◌, ◌<◌, ◌⊎◌, inl, inr, true, false, some, Text, text_eq, text_eqb_iff, ◌==◌, arith, Lacks,
  join-injective, eqb_refl, Bool-cases, bytes, ok,
}
use nomctl.Prelude.Dict.{get, put, remove, get-put, get-remove}
use nomctl.Time.{Time}
use nomctl.Relay.Store.{Mute}
use nomctl.Relay.Store.Memory.{MemoryStore, key, set_mute, clear_mute, muted}

get-fresh_mute :
    (mu : Mute) (alert : Text) (m : MemoryStore)
    → mu.alert ≡ alert
    → get (key mu.node_id alert) (put (key mu.node_id mu.alert) mu.until m.mutes) ≡ some mu.until
get-fresh_mute mu alert m e = rw (← e) (rw get-put (rw eqb_refl))

-- A mute of an alert, or of "all", silences that alert of the node until it ends.
pub muted-set_mute :
    (mu : Mute) (alert : Text) (now : Time) (m : MemoryStore)
    → (mu.alert ≡ alert) ⊎ (mu.alert ≡ bytes "all")
    → now < mu.until
    → muted mu.node_id alert now (set_mute mu m).1 ≡ ok true
unfolding muted set_mute
muted-set_mute mu alert now m (inl one) h = ground (arith, get-fresh_mute mu alert m one)
muted-set_mute mu alert now m (inr every) h =
    ground (arith, get-fresh_mute mu (bytes "all") m every)

key_ne :
    (id other a b : Text)
    → Lacks 0 id
    → Lacks 0 other
    → id ≢ other
    → (key id a == key other b) ≡ false
key_ne id other a b p q ne = elim (Bool-cases (key id a == key other b)) [
  | inl same ↦ absurd (ne (join-injective 0 id other a b p q ((text_eqb_iff _ _).0 same)).0)
  | inr apart ↦ apart
]

-- A mute changes nothing for another node. Ids hold no zero byte.
pub muted-set_mute_ne :
    (mu : Mute) (other alert : Text) (now : Time) (m : MemoryStore)
    → Lacks 0 mu.node_id
    → Lacks 0 other
    → mu.node_id ≢ other
    → muted other alert now (set_mute mu m).1 ≡ muted other alert now m
unfolding muted set_mute
muted-set_mute_ne mu other alert now m p q ne = ground (
  arith,
  key_ne mu.node_id other mu.alert alert p q ne,
  key_ne mu.node_id other mu.alert (bytes "all") p q ne,
  get-put (key mu.node_id mu.alert) (key other alert) mu.until m.mutes,
  get-put (key mu.node_id mu.alert) (key other (bytes "all")) mu.until m.mutes,
)

-- After the mutes of an alert and of "all" are both cleared, the alert is not muted.
pub muted-clear_mute :
    (id alert : Text) (now : Time) (m : MemoryStore)
    → muted id alert now (clear_mute id (bytes "all") (clear_mute id alert m).1).1 ≡ ok false
unfolding muted clear_mute
muted-clear_mute id alert now m = ground (
  arith,
  eqb_refl (key id (bytes "all")),
  eqb_refl (key id alert),
  get-remove (key id (bytes "all")) (key id (bytes "all")) (remove (key id alert) m.mutes),
  get-remove (key id (bytes "all")) (key id alert) (remove (key id alert) m.mutes),
  get-remove (key id alert) (key id alert) m.mutes,
)
