-- ===== src/Relay/Http/Names.antt =====
-- Pairing codes, node ids and node names of internal/relay/server.go. The random bytes are arguments.
use nomctl.Prelude.{
  ℕ, ◌*◌, ◌/◌, ◌%◌, ◌<◌, ◌≡◌, refl, Bool, true, false, not, ◌&&◌, ◌||◌, [], ◌∷◌, ◌++◌, Text, bytes,
  text_eq, nat_eq, ◌==◌, ltb, leb, length, all, drop, take, get_or, map, arith, Lacks,
  if◌then◌else◌,
}
use nomctl.AlertProto.Sign.{hex_encode, hex_digit}
use nomctl.AlertProto.Sign.Laws.{AreBytes}

-- "ABCDEFGHJKLMNPQRSTUVWXYZ23456789"
abbrev pub code_alphabet : Text
code_alphabet = bytes "ABCDEFGHJKLMNPQRSTUVWXYZ23456789"

-- A code from the random bytes that were read: each picks a letter.
unfoldable pub new_code : Text → Text
new_code random = map (λ b. get_or code_alphabet (b % length code_alphabet) 0) random

unfoldable pub new_node_id : Text → Text
new_node_id random = bytes "n_" ++ hex_encode random

abbrev pub is_name_char : ℕ → Bool
is_name_char r =
    leb b'a' r && leb r b'z'
    || leb b'A' r && leb r b'Z'
    || leb b'0' r && leb r b'9'
    || r == b'-'
    || r == b'_'
    || r == b'.'

-- A byte above 127 is part of a rune that is no name character either.
unfoldable pub valid_name : Text → Bool
valid_name name = if name == [] || ltb 32 (length name) then false else all is_name_char name

abbrev pub is_id_char : ℕ → Bool
is_id_char c = not ((ltb c b'0' || ltb b'9' c) && (ltb c b'a' || ltb b'f' c))

-- "n_" and 16 hexadecimal digits.
unfoldable pub valid_node_id : Text → Bool
valid_node_id id =
    if not (length id == 18) || not (take 2 id == bytes "n_")
    then false
    else all is_id_char (drop 2 id)

length-hex_encode : (s : Text) → length (hex_encode s) ≡ 2 * length s
unfolding hex_encode
length-hex_encode [] = refl
length-hex_encode (b ∷ s) = omega (arith, length-hex_encode s)

hex_digit-is_id_char : (n : ℕ) → n < 16 → is_id_char (hex_digit n) ≡ true
unfolding hex_digit
hex_digit-is_id_char n h = ground arith

all-hex_encode : (s : Text) → AreBytes s → all is_id_char (hex_encode s) ≡ true
unfolding hex_encode
all-hex_encode [] h = refl
all-hex_encode (b ∷ s) (small, rest) =
    ground
      (arith, hex_digit-is_id_char (b / 16), hex_digit-is_id_char (b % 16), all-hex_encode s rest)

-- An id made from eight random bytes is one that the server accepts.
pub valid_node_id-new_node_id :
    (random : Text)
    → AreBytes random
    → length random ≡ 8
    → valid_node_id (new_node_id random) ≡ true
unfolding valid_node_id new_node_id
valid_node_id-new_node_id random h eight =
    ground (arith, length-hex_encode random, all-hex_encode random h)

all-Lacks : (s : Text) → all is_id_char s ≡ true → Lacks 0 s
all-Lacks [] h = tt
all-Lacks (c ∷ s) h =
    let rest : all is_id_char s ≡ true = ground arith in (ground arith, all-Lacks s rest)

-- What the server accepts as an id holds no zero byte, so that keys made from ids can be told apart.
pub valid_node_id-Lacks : (id : Text) → valid_node_id id ≡ true → Lacks 0 id
unfolding valid_node_id
valid_node_id-Lacks [] h = tt
valid_node_id-Lacks (a ∷ []) h = absurd (ground arith)
valid_node_id-Lacks (a ∷ b ∷ s) h =
    let rest : all is_id_char s ≡ true = ground arith in
    (ground arith, (ground arith, all-Lacks s rest))
