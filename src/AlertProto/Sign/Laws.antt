-- ===== src/AlertProto/Sign/Laws.antt =====
-- What a signature proves: its message, its time, and that only the MAC of both is accepted.
use nomctl.Prelude.{
  ℕ, ◌+◌, ◌*◌, ◌/◌, ◌%◌, ◌≤◌, ◌<◌, ◌≡◌, refl, ◌↔◌, false, Option, none, some, [], ◌∷◌, Text,
  text_eq, text_eqb_iff, arith, ℤ, pos_part, neg_part, format_int, format_int-Lacks,
  format_int-injective, join-injective,
}
use nomctl.Time.{Time, second}
use nomctl.AlertProto.Sign.{
  hex_digit, hex_encode, hex_value, decode_pair, hex_decode, message, unix_epoch, is_stale,
  replay_window, check_mac, sign, verify,
}

abbrev pub AreBytes : Text → Type 0
AreBytes [] = Unit
AreBytes (b ∷ s) = (b < 256) × AreBytes s

hex_value-hex_digit : (n : ℕ) → n < 16 → hex_value (hex_digit n) ≡ some n
unfolding hex_value hex_digit
hex_value-hex_digit n h = ground arith

hex_join : (b : ℕ) → 16 * (b / 16) + b % 16 ≡ b
hex_join b = omega arith

-- Decoding an encoded byte sequence gives it back.
pub hex_decode-hex_encode : (s : Text) → AreBytes s → hex_decode (hex_encode s) ≡ some s
unfolding hex_encode hex_decode decode_pair
hex_decode-hex_encode [] h = refl
hex_decode-hex_encode (b ∷ s) (small, rest) = ground (
  arith,
  hex_value-hex_digit (b / 16),
  hex_value-hex_digit (b % 16),
  hex_join b,
  hex_decode-hex_encode s rest,
)

-- Two requests with the same signed message have the same timestamp and the same body.
pub message-injective :
    (t t' : ℤ) (body body' : Text) → message t body ≡ message t' body' → (t ≡ t') × (body ≡ body')
unfolding message
message-injective t t' body body' e =
    let parts =
      join-injective b'\n' (format_int t) (format_int t') body body'
        (format_int-Lacks b'\n' t (omega arith)) (format_int-Lacks b'\n' t' (omega arith)) e in
    (format_int-injective t t' parts.0, parts.1)

-- At most five minutes between the clock and the timestamp, in either direction.
pub record IsFresh (timestamp : ℤ) (now : Time) : Type 0 where
  pub not_old :
      now + neg_part timestamp * second ≤ (unix_epoch + pos_part timestamp) * second + replay_window
  pub not_ahead :
      (unix_epoch + pos_part timestamp) * second ≤ now + neg_part timestamp * second + replay_window

is_stale_iff : (t : ℤ) (now : Time) → (is_stale t now ≡ false) ↔ IsFresh t now
unfolding is_stale
is_stale_iff t now = ((λ h. ground arith), (λ f. ground arith))

check_mac_iff :
    (want : Text) (got : Option Text) → (check_mac (some want) got ≡ none) ↔ (got ≡ some want)
unfolding check_mac
check_mac_iff want none = ground arith
check_mac_iff want (some got) =
    ((λ h. ground (arith, text_eqb_iff want got)), (λ h. ground (arith, text_eqb_iff want got)))

module _ (hmac : Text → Text → Text) (bytes : (k m : Text) → AreBytes (hmac k m)) where
  -- For a MAC that yields bytes: a request is accepted exactly if its timestamp is fresh and its
  -- signature is a hexadecimal form of the MAC of that timestamp and body.
  pub verify_iff :
      (secret : Text) (t : ℤ) (body signature : Text) (now : Time)
      → (verify hmac secret t body signature now ≡ none)
        ↔ (IsFresh t now × (hex_decode signature ≡ some (hmac secret (message t body))))
  unfolding verify sign
  verify_iff secret t body signature now =
      let mac = hmac secret (message t body) in
      let fresh = is_stale_iff t now in
      let good = check_mac_iff mac (hex_decode signature) in
      rw (hex_decode-hex_encode mac (bytes secret (message t body)))
        ((λ h. ground (arith, fresh, good)), (λ h. ground (arith, fresh, good)))

  -- For a MAC that yields bytes: what `sign` makes, `verify` accepts while the timestamp is fresh.
  pub verify-sign :
      (secret : Text) (t : ℤ) (body : Text) (now : Time)
      → IsFresh t now
      → verify hmac secret t body (sign hmac secret t body) now ≡ none
  verify-sign secret t body now f =
      (verify_iff secret t body _ now).1
        (f, unfold sign in hex_decode-hex_encode _ (bytes secret (message t body)))

  -- For a MAC that yields bytes: of two times at which one request is accepted, the later is at most
  -- ten minutes after the other.
  pub verify_replay :
      (secret : Text) (t : ℤ) (body signature : Text) (now later : Time)
      → verify hmac secret t body signature now ≡ none
      → verify hmac secret t body signature later ≡ none
      → later ≤ now + 2 * replay_window
  verify_replay secret t body signature now later p q = omega (
    arith,
    (verify_iff secret t body signature now).0 p,
    (verify_iff secret t body signature later).0 q,
  )
