-- ===== src/AlertProto/Sign.antt =====
-- Request signing of internal/alertproto/proto.go: `Sign` and `Verify`. The MAC, HMAC-SHA256 of the
-- standard library, is a parameter from a key and a message to bytes.
pub mod Laws
use nomctl.Prelude.{
  ℕ, ◌+◌, ◌-◌, ◌*◌, ◌/◌, ◌%◌, Bool, ◌&&◌, ◌||◌, Option, none, some, List, [], ◌∷◌, ◌++◌, Text,
  text_eq, ◌==◌, leb, ltb, ℤ, pos_part, neg_part, format_int, if◌then◌else◌,
}
use nomctl.Time.{Time, Duration, second, minute}

abbrev pub replay_window : Duration
replay_window = 5 * minute

-- `errors.New` values that `Verify` returns; a nil error is `none`.
pub data SignError : Type 0 where
  stale bad_signature : SignError

unfoldable pub hex_digit : ℕ → ℕ
hex_digit n = if ltb n 10 then 48 + n else 87 + n

-- `hex.EncodeToString`
unfoldable pub hex_encode : Text → Text
unfolding hex_digit
hex_encode [] = []
hex_encode (b ∷ s) = hex_digit (b / 16) ∷ hex_digit (b % 16) ∷ hex_encode s

pub hex_value : ℕ → Option ℕ
hex_value c =
    if leb b'0' c && leb c b'9'
    then some (c - 48)
    else if leb b'a' c && leb c b'f'
    then some (c - 87)
    else if leb b'A' c && leb c b'F'
    then some (c - 55)
    else none

pub decode_pair : Option ℕ → Option ℕ → Option Text → Option Text
decode_pair (some x) (some y) (some rest) = some ((16 * x + y) ∷ rest)
decode_pair _ _ _ = none

-- `hex.DecodeString`: `none` for an odd length or a byte that is no hexadecimal digit.
unfoldable pub hex_decode : Text → Option Text
unfolding hex_value decode_pair
hex_decode [] = some []
hex_decode (a ∷ []) = none
hex_decode (a ∷ b ∷ s) = decode_pair (hex_value a) (hex_value b) (hex_decode s)

-- What the MAC is computed over: the decimal timestamp, a newline and the body.
pub message : ℤ → Text → Text
message timestamp body = format_int timestamp ++ b'\n' ∷ body

-- Seconds from the zero time to the Unix epoch.
abbrev pub unix_epoch : ℕ
unix_epoch = 62135596800

-- `d > ReplayWindow || d < -ReplayWindow` for `d := now.Sub(time.Unix(timestamp, 0))`, with the
-- negative part of the timestamp added to the other side.
unfoldable pub is_stale : ℤ → Time → Bool
is_stale timestamp now =
    let a = now + neg_part timestamp * second in
    let b = (unix_epoch + pos_part timestamp) * second in
    ltb replay_window (a - b) || ltb replay_window (b - a)

-- `got, err := hex.DecodeString(signature)` and the comparison with what is wanted.
unfoldable pub check_mac : Option Text → Option Text → Option SignError
check_mac none got = some bad_signature
check_mac (some want) none = some bad_signature
check_mac (some want) (some got) = if want == got then none else some bad_signature

module _ (hmac : Text → Text → Text) where
  unfoldable pub sign : Text → ℤ → Text → Text
  unfolding message
  sign secret timestamp body = hex_encode (hmac secret (message timestamp body))

  unfoldable pub verify : Text → ℤ → Text → Text → Time → Option SignError
  verify secret timestamp body signature now =
      if is_stale timestamp now
      then some stale
      else check_mac (hex_decode (sign secret timestamp body)) (hex_decode signature)
