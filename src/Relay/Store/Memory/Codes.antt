-- ===== src/Relay/Store/Memory/Codes.antt =====
-- Pairing codes of the in-memory store: a code is redeemed once, before it expires, and a chat holds
-- few unused ones.
use nomctl.Prelude.{
  ℕ, ◌+◌, ◌≤◌, ◌<◌, ◌≡◌, refl, ◌↔◌, Bool, true, false, ◌&&◌, Option, none, some, List, [], ◌∷◌,
  Text, text_eq, text_eqb_iff, ◌==◌, int_eq, int_eqb_iff, count_if, arith, ℤ, Result, ok, err,
  if◌then◌else◌,
}
use nomctl.Prelude.Dict.{Dict, values, get, put, get-put}
use nomctl.Time.{Time}
use nomctl.Relay.Store.Memory.{
  CodeRec, MemoryStore, max_codes_per_chat, is_unused, create_code, consume, consume_code,
}

-- What makes a redemption succeed.
abbrev pub Redeemable : Option CodeRec → Time → ℤ → Type 0
Redeemable o now chat =
    (c : CodeRec) × (o ≡ some c) × (c.used ≡ false) × (now < c.expires) × (c.chat_id ≡ chat)

consume→Redeemable :
    (code : Text) (now : Time) (chat : ℤ) (o : Option CodeRec) (m : MemoryStore)
    → (consume code now o m).0 ≡ ok chat
    → Redeemable o now chat
unfolding consume
consume→Redeemable code now chat none m h = cc
consume→Redeemable code now chat (some c) m h = (c, refl, ground arith, ground arith, ground arith)

Redeemable→consume :
    (code : Text) (now : Time) (chat : ℤ) (o : Option CodeRec) (m : MemoryStore)
    → Redeemable o now chat
    → (consume code now o m).0 ≡ ok chat
unfolding consume
Redeemable→consume code now chat o m (c, there, fresh, early, same) = rw there (ground arith)

-- A redemption succeeds exactly for a code that is there, unused and not expired, and gives its chat.
pub consume_code_iff :
    (code : Text) (now : Time) (chat : ℤ) (m : MemoryStore)
    → ((consume_code code now m).0 ≡ ok chat) ↔ Redeemable (get code m.codes) now chat
unfolding consume_code
consume_code_iff code now chat m =
    (consume→Redeemable code now chat _ m, Redeemable→consume code now chat _ m)

abbrev pub is_ok {ℓ κ} : {E : Type ℓ} {A : Type κ} → Result E A → Bool
is_ok (ok _) = true
is_ok (err _) = false

-- How many of the attempts, each a code and the time, redeem the code `k`.
unfoldable pub redeemed : Text → MemoryStore → List (Text × Time) → ℕ
redeemed k m [] = 0
redeemed k m ((code, now) ∷ attempts) =
    let (r, m') = consume_code code now m in
    (if is_ok r && code == k then 1 else 0) + redeemed k m' attempts

abbrev uses_left : Option CodeRec → ℕ
uses_left none = 0
uses_left (some c) = if c.used then 0 else 1

uses_left-consume :
    (k code : Text) (now : Time) (o : Option CodeRec) (m : MemoryStore)
    → get code m.codes ≡ o
    → let (r, m') = consume code now o m in
      (if is_ok r && code == k then 1 else 0) + uses_left (get k m'.codes)
      ≤ uses_left (get k m.codes)
unfolding consume
uses_left-consume k code now none m e = omega arith
uses_left-consume k code now (some c) m e =
    ground (arith, text_eqb_iff code k, get-put code k (record c { used = true }) m.codes)

uses_left-consume_code :
    (k code : Text) (now : Time) (m : MemoryStore)
    → let (r, m') = consume_code code now m in
      (if is_ok r && code == k then 1 else 0) + uses_left (get k m'.codes)
      ≤ uses_left (get k m.codes)
unfolding consume_code
uses_left-consume_code k code now m = uses_left-consume k code now _ m refl

redeemed-le-uses_left :
    (k : Text) (m : MemoryStore) (attempts : List (Text × Time))
    → redeemed k m attempts ≤ uses_left (get k m.codes)
unfolding redeemed
redeemed-le-uses_left k m [] = omega arith
redeemed-le-uses_left k m ((code, now) ∷ attempts) = omega (
  arith,
  uses_left-consume_code k code now m,
  redeemed-le-uses_left k (consume_code code now m).1 attempts,
)

-- Of any attempts to redeem codes, one after the other with no code created in between, in any
-- order and at any times, at most one redeems a given code.
pub redeemed-le_one :
    (k : Text) (m : MemoryStore) (attempts : List (Text × Time)) → redeemed k m attempts ≤ 1
redeemed-le_one k m attempts = ground (arith, redeemed-le-uses_left k m attempts)

-- The unused codes of a chat that have not expired at a time.
abbrev pub unused_codes : Time → ℤ → MemoryStore → ℕ
unused_codes wall chat m = count_if (is_unused wall chat) (values m.codes)

count_if-put :
    (p : CodeRec → Bool) (k : Text) (c : CodeRec) (m : Dict Text CodeRec)
    → count_if p (values (put k c m)) ≤ count_if p (values m) + (if p c then 1 else 0)
unfolding put
count_if-put p k c [] = ground arith
count_if-put p k c ((j, w) ∷ m) = ground (arith, count_if-put p k c m)

-- A chat never gets more than `max_codes_per_chat` unused codes: creating a code, for this chat or
-- another, keeps the bound.
pub unused_codes-create_code :
    (wall expires : Time) (chat other : ℤ) (code : Text) (m : MemoryStore)
    → unused_codes wall chat m ≤ max_codes_per_chat
    → unused_codes wall chat (create_code wall other code expires m).1 ≤ max_codes_per_chat
unfolding create_code
unused_codes-create_code wall expires chat other code m h = ground (
  arith,
  int_eqb_iff other chat,
  count_if-put (is_unused wall chat) code
      (record { chat_id = other; expires = expires; used = false }) m.codes,
)
