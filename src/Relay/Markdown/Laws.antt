-- ===== src/Relay/Markdown/Laws.antt =====
-- Escaped text is read back as it was, and shows no markup of its own.
use nomctl.Prelude.{
  ℕ, suc, ◌≡◌, ◌≤◌, ◌<◌, ◌∙◌, ap, refl, Bool, true, false, ◌||◌, Option, none, some, List, [], ◌∷◌,
  ◌++◌, Text, bytes, nat_eq, ◌==◌, any, all, ltb, arith, Bool-cases, inl, inr, if◌then◌else◌,
}
use nomctl.Relay.Markdown.{markdown_special, is_special, rune_tail, escape_from, escape}

-- The characters that are markup in MarkdownV2, as the documentation of Telegram lists them.
abbrev pub markup : Text
markup = bytes "_*[]()~`>#+-=|{}.!"

abbrev pub is_markup : ℕ → Bool
is_markup c = any (λ d. d == c) markup

abbrev pub prepend : ℕ → Option Text → Option Text
prepend c none = none
prepend c (some t) = some (c ∷ t)

-- How a reader of MarkdownV2 takes text: a backslash hands over the next byte as it is, and a markup
-- byte that stands alone ends the plain text. The flag is set behind a backslash.
unfoldable pub read_plain : Bool → Text → Option Text
read_plain true [] = none
read_plain true (c ∷ s) = prepend c (read_plain false s)
read_plain false [] = some []
read_plain false (c ∷ s) =
    let quoted = read_plain true s in
    let plain = prepend c (read_plain false s) in
    if c == b'\\' then quoted else if is_markup c then none else plain

-- A rune in UTF-8.
abbrev pub IsRune : Text → Type 0
IsRune (a ∷ []) = a < 128
IsRune (a ∷ b ∷ []) = (194 ≤ a) × (a ≤ 223) × (128 ≤ b) × (b ≤ 191)
IsRune (a ∷ b ∷ c ∷ []) =
    (224 ≤ a)
    × (a ≤ 239)
    × (128 ≤ b)
    × (b ≤ 191)
    × (a ≡ 224 → 160 ≤ b)
    × (a ≡ 237 → b ≤ 159)
    × (128 ≤ c)
    × (c ≤ 191)
IsRune (a ∷ b ∷ c ∷ d ∷ []) =
    (240 ≤ a)
    × (a ≤ 244)
    × (128 ≤ b)
    × (b ≤ 191)
    × (a ≡ 240 → 144 ≤ b)
    × (a ≡ 244 → b ≤ 143)
    × (128 ≤ c)
    × (c ≤ 191)
    × (128 ≤ d)
    × (d ≤ 191)
IsRune _ = ⊥

abbrev pub AreRunes : List Text → Type 0
AreRunes [] = Unit
AreRunes (r ∷ rs) = IsRune r × AreRunes rs

abbrev pub text_of : List Text → Text
text_of [] = []
text_of (r ∷ rs) = r ++ text_of rs

any-append : (p : ℕ → Bool) (s t : Text) → any p (s ++ t) ≡ (any p s || any p t)
any-append p [] t = refl
any-append p (c ∷ s) t = ground (arith, any-append p s t)

or_false : (b : Bool) → (b || false) ≡ b
or_false true = refl
or_false false = refl

-- What the program escapes is the markup and the backslash.
is_special-markup : (c : ℕ) → is_special c ≡ (is_markup c || b'\\' == c)
unfolding is_special
is_special-markup c =
    any-append (λ d. d == c) markup (bytes "\\")
    ∙ ap (λ x. is_markup c || x) (or_false (b'\\' == c))

high-not_in :
    (c : ℕ) (ds : Text) → 128 ≤ c → all (λ d. ltb d 128) ds ≡ true → any (λ d. d == c) ds ≡ false
high-not_in c [] h a = refl
high-not_in c (d ∷ ds) h a = ground (arith, high-not_in c ds h)

high_plain : (c : ℕ) → 128 ≤ c → (is_special c ≡ false)
unfolding is_special
high_plain c h = high-not_in c markdown_special h refl

-- A byte that is not escaped is read as it is.
read_plain-unescaped :
    (c : ℕ) (s : Text)
    → is_special c ≡ false
    → read_plain false (c ∷ s) ≡ prepend c (read_plain false s)
unfolding read_plain
read_plain-unescaped c s h = ground (arith, is_special-markup c)

read_plain-escaped :
    (c : ℕ) (s : Text) → read_plain false (b'\\' ∷ c ∷ s) ≡ prepend c (read_plain false s)
unfolding read_plain
read_plain-escaped c s = refl

read_plain-high :
    (c : ℕ) (s : Text) → 128 ≤ c → read_plain false (c ∷ s) ≡ prepend c (read_plain false s)
read_plain-high c s h = read_plain-unescaped c s (high_plain c h)

-- The first byte of a rune, and a later one.
read_plain-first :
    (a k : ℕ) (s : Text)
    → rune_tail a s ≡ some k
    → read_plain false (escape_from 0 (a ∷ s)) ≡ prepend a (read_plain false (escape_from k s))
unfolding escape_from
read_plain-first a k s starts = elim (Bool-cases (is_special a)) [
  | inl special ↦ rw (escape_from, starts, special) (read_plain-escaped a (escape_from k s))
  | inr plain ↦ rw (escape_from, starts, plain) (read_plain-unescaped a (escape_from k s) plain)
]

read_plain-next :
    (k c : ℕ) (s : Text)
    → 128 ≤ c
    → read_plain false (escape_from (suc k) (c ∷ s))
      ≡ prepend c (read_plain false (escape_from k s))
unfolding escape_from
read_plain-next k c s h = read_plain-high c (escape_from k s) h

read_plain-rune :
    (r s t : Text)
    → IsRune r
    → read_plain false (escape_from 0 s) ≡ some t
    → read_plain false (escape_from 0 (r ++ s)) ≡ some (r ++ t)
unfolding rune_tail
read_plain-rune [] s t h p = absurd h
read_plain-rune (a ∷ []) s t h p = read_plain-first a 0 s (ground arith) ∙ ap (prepend a) p
read_plain-rune (a ∷ b ∷ []) s t (a_min, a_max, b_min, b_max) p =
    read_plain-first a 1 (b ∷ s) (ground arith)
    ∙ ap (prepend a) (read_plain-next 0 b s b_min ∙ ap (prepend b) p)
read_plain-rune (a ∷ b ∷ c ∷ []) s t (a_min, a_max, b_min, b_max, low, high, c_min, c_max) p =
    read_plain-first a 2 (b ∷ c ∷ s) (ground arith)
    ∙ ap (prepend a) (
        read_plain-next 1 b (c ∷ s) b_min
        ∙ ap (prepend b) (read_plain-next 0 c s c_min ∙ ap (prepend c) p))
read_plain-rune (a ∷ b ∷ c ∷ d ∷ []) s t
      (a_min, a_max, b_min, b_max, low, high, c_min, c_max, d_min, d_max) p =
    read_plain-first a 3 (b ∷ c ∷ d ∷ s) (ground arith)
    ∙ ap (prepend a) (
        read_plain-next 2 b (c ∷ d ∷ s) b_min
        ∙ ap (prepend b) (
            read_plain-next 1 c (d ∷ s) c_min
            ∙ ap (prepend c) (read_plain-next 0 d s d_min ∙ ap (prepend d) p)))
read_plain-rune (a ∷ b ∷ c ∷ d ∷ e ∷ r) s t h p = absurd h

-- Whatever a text in UTF-8 holds, its escaped form reads as plain text and gives that text back.
pub read_plain-escape :
    (rs : List Text) → AreRunes rs → read_plain false (escape (text_of rs)) ≡ some (text_of rs)
unfolding escape
read_plain-escape [] h = unfold escape_from read_plain in refl
read_plain-escape (r ∷ rs) (rune, others) =
    read_plain-rune r (text_of rs) (text_of rs) rune (read_plain-escape rs others)
