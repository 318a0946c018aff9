-- ===== src/Relay/Markdown.antt =====
-- MarkdownV2 text of internal/relay/telegram.go: `Escape`, `Code` and `Bold`. The characters that are
-- escaped are ASCII, so that the first byte of a rune tells whether it is one of them.
pub mod Laws
use nomctl.Prelude.{
  ℕ, zero, suc, Bool, ◌&&◌, Option, none, some, List, [], ◌∷◌, ◌++◌, Text, bytes, nat_eq, ◌==◌,
  nat_eqb, ltb, leb, any, if◌then◌else◌,
}

-- "_*[]()~`>#+-=|{}.!\\"
abbrev pub markdown_special : Text
markdown_special = bytes "_*[]()~`>#+-=|{}.!\\"

unfoldable pub is_special : ℕ → Bool
is_special c = any (λ d. d == c) markdown_special

abbrev pub within : ℕ → ℕ → ℕ → Bool
within low high c = leb low c && leb c high

abbrev pub one_more : Text → Option ℕ
one_more (b ∷ s) = if within 128 191 b then some 1 else none
one_more [] = none

abbrev pub two_more : ℕ → ℕ → Text → Option ℕ
two_more low high (b ∷ c ∷ s) = if within low high b && within 128 191 c then some 2 else none
two_more low high _ = none

abbrev pub three_more : ℕ → ℕ → Text → Option ℕ
three_more low high (b ∷ c ∷ d ∷ s) =
    if within low high b && within 128 191 c && within 128 191 d then some 3 else none
three_more low high _ = none

-- How many bytes follow the first one in the rune that `range` over a string takes; none where the
-- bytes are no UTF-8.
unfoldable pub rune_tail : ℕ → Text → Option ℕ
rune_tail a s =
    if ltb a 128
    then some 0
    else if within 194 223 a
    then one_more s
    else if within 224 239 a
    then two_more (if nat_eqb a 224 then 160 else 128) (if nat_eqb a 237 then 159 else 191) s
    else if within 240 244 a
    then three_more (if nat_eqb a 240 then 144 else 128) (if nat_eqb a 244 then 143 else 191) s
    else none

-- The loop over the runes; the number counts the bytes of the current rune that are still to come. A byte
-- that is no UTF-8 becomes U+FFFD.
unfoldable pub escape_from : ℕ → Text → Text
escape_from k [] = []
escape_from (suc k) (c ∷ s) = c ∷ escape_from k s
escape_from zero (c ∷ s) = elim (rune_tail c s) [
  | none ↦ 239 ∷ 191 ∷ 189 ∷ escape_from 0 s
  | some k ↦ if is_special c then b'\\' ∷ c ∷ escape_from k s else c ∷ escape_from k s
]

unfoldable pub escape : Text → Text
escape s = escape_from 0 s

-- The two `ReplaceAll` of `Code` touch different bytes, and the second adds no byte that the first
-- would replace.
unfoldable pub escape_code : Text → Text
escape_code [] = []
escape_code (c ∷ s) =
    let rest = escape_code s in
    if c == b'\\' then b'\\' ∷ b'\\' ∷ rest else if c == b'`' then b'\\' ∷ b'`' ∷ rest else c ∷ rest

unfoldable pub code : Text → Text
unfolding escape_code
code s = b'`' ∷ (escape_code s ++ b'`' ∷ [])

unfoldable pub bold : Text → Text
bold s = b'*' ∷ (escape s ++ b'*' ∷ [])
