-- ===== src/Backup/Schedule/Laws.antt =====
-- The times of a schedule, and the reading of what is quoted in a unit.
use nomctl.Prelude.{
  ℕ, ◌≡◌, ◌≢◌, ◌<◌, ◌∙◌, refl, Bool, true, false, not, ◌&&◌, ◌||◌, all, Option, none, some, [], ◌∷◌,
  ◌++◌, Text, ℤ, pos, negsuc, nat_eqb, arith, ap, Bool-cases, inl, inr, if◌then◌else◌,
}
use nomctl.AlertProto.Sign.{hex_encode}
use nomctl.Backup.{Tools}
use nomctl.Backup.Schedule.{schedule_time, replace_byte, unit_quote, hour_of}

hour_of_bound : (o : ℤ) (h : Text) → hour_of o h < 24
hour_of_bound (pos n) h = ground arith
hour_of_bound (negsuc n) h = omega arith

-- A schedule is a time of the day, whatever the digest and the override are.
pub schedule_time-bounds :
    (tools : Tools) (hostname service : Text) (o : ℤ)
    → ((schedule_time tools hostname service o).0 < 24)
      × ((schedule_time tools hostname service o).1 < 60)
unfolding schedule_time
schedule_time-bounds tools hostname service o =
    (hour_of_bound o (hex_encode (tools.sha256 (hostname ++ service))), omega arith)

abbrev put_first : ℕ → Option (Text × Text) → Option (Text × Text)
put_first c none = none
put_first c (some (s, rest)) = some (c ∷ s, rest)

-- What ends a line of a unit.
abbrev pub ends_line : ℕ → Bool
ends_line c = nat_eqb c 0 || nat_eqb c 10 || nat_eqb c 13

-- A byte behind a backslash that stands for itself, or behind a percent sign.
abbrev pub escaped : ℕ → Option (Text × Text) → Option (Text × Text)
escaped d read = if nat_eqb d b'\\' || nat_eqb d b'"' then put_first d read else none

abbrev pub specifier : ℕ → Option (Text × Text) → Option (Text × Text)
specifier d read = if nat_eqb d b'%' then put_first d read else none

-- How systemd reads a double-quoted text of a line: up to the first quote that no backslash escapes.
-- Settings are line by line, and a percent sign begins a specifier; none for an end of the line, and for
-- what does not stand for itself, other escapes and specifiers.
unfoldable pub read_quoted : Text → Option (Text × Text)
read_quoted [] = none
read_quoted (c ∷ []) = if nat_eqb c b'"' then some ([], []) else none
read_quoted (c ∷ d ∷ s) =
    let behind = read_quoted s in
    let plain = put_first c (read_quoted (d ∷ s)) in
    if ends_line c
    then none
    else if nat_eqb c b'"'
    then some ([], d ∷ s)
    else if nat_eqb c b'\\'
    then escaped d behind
    else if nat_eqb c b'%'
    then specifier d behind
    else plain

-- A text on one line without a percent sign.
abbrev pub is_simple : ℕ → Bool
is_simple c = not (ends_line c) && not (nat_eqb c b'%')

abbrev pub quoted_byte : ℕ → Text → Text
quoted_byte c s =
    if nat_eqb c b'\\'
    then b'\\' ∷ b'\\' ∷ s
    else if nat_eqb c b'"'
    then b'\\' ∷ b'"' ∷ s
    else c ∷ s

unit_quote-cons : (c : ℕ) (s : Text) → unit_quote (c ∷ s) ≡ quoted_byte c (unit_quote s)
unfolding unit_quote replace_byte
unit_quote-cons c s = elim (Bool-cases (nat_eqb c b'\\')) [
  | inl backslash ↦ rw backslash refl
  | inr other ↦
      rw other (elim (Bool-cases (nat_eqb c b'"')) [
        | inl quote ↦ rw quote refl
        | inr plain ↦ rw plain refl
      ])
]

read_quoted-plain :
    (c : ℕ) (t : Text)
    → nat_eqb c b'"' ≡ false
    → nat_eqb c b'\\' ≡ false
    → is_simple c ≡ true
    → t ≢ []
    → read_quoted (c ∷ t) ≡ put_first c (read_quoted t)
unfolding read_quoted
read_quoted-plain c [] no_quote no_backslash simple full = absurd (full refl)
read_quoted-plain c (d ∷ t) no_quote no_backslash simple full =
    let one_line : ends_line c ≡ false = ground arith in
    let no_percent : nat_eqb c b'%' ≡ false = ground arith in
    rw (one_line, no_quote, no_backslash, no_percent) refl

read_quoted-end : (rest : Text) → read_quoted (b'"' ∷ rest) ≡ some ([], rest)
unfolding read_quoted
read_quoted-end [] = refl
read_quoted-end (d ∷ rest) = refl

read_quoted-backslash :
    (t : Text) → read_quoted (b'\\' ∷ b'\\' ∷ t) ≡ put_first b'\\' (read_quoted t)
unfolding read_quoted
read_quoted-backslash t = refl

read_quoted-quote : (t : Text) → read_quoted (b'\\' ∷ b'"' ∷ t) ≡ put_first b'"' (read_quoted t)
unfolding read_quoted
read_quoted-quote t = refl

before_quote_full : (s rest : Text) → s ++ b'"' ∷ rest ≢ []
before_quote_full [] rest q = ground arith
before_quote_full (c ∷ s) rest q = ground arith

-- One byte as it is written is read as one byte.
read_quoted-byte :
    (c : ℕ) (s rest : Text)
    → is_simple c ≡ true
    → read_quoted (quoted_byte c s ++ b'"' ∷ rest) ≡ put_first c (read_quoted (s ++ b'"' ∷ rest))
read_quoted-byte c s rest simple = elim (Bool-cases (nat_eqb c b'\\')) [
  | inl backslash ↦
      (let same : c ≡ b'\\' = ground arith in
        rw (backslash, same) (read_quoted-backslash (s ++ b'"' ∷ rest)))
  | inr other ↦ rw other (elim (Bool-cases (nat_eqb c b'"')) [
    | inl quote ↦
        (let same : c ≡ b'"' = ground arith in
          rw (quote, same) (read_quoted-quote (s ++ b'"' ∷ rest)))
    | inr plain ↦
        rw plain
          (read_quoted-plain c (s ++ b'"' ∷ rest) plain other simple (before_quote_full s rest))
  ])
]

-- A text on one line without a percent sign is read back as it was, once quoted, and the reading goes on
-- after the closing quote: no quote and no backslash in it can end the setting that it stands in.
pub read_quoted-unit_quote :
    (s rest : Text)
    → all is_simple s ≡ true
    → read_quoted (unit_quote s ++ b'"' ∷ rest) ≡ some (s, rest)
unfolding unit_quote replace_byte
read_quoted-unit_quote [] rest simple = read_quoted-end rest
read_quoted-unit_quote (c ∷ s) rest simple =
    let first : is_simple c ≡ true = ground arith in
    let ih = read_quoted-unit_quote s rest (ground arith) in
    let later = ap (put_first c) ih in
    ap (λ t. read_quoted (t ++ b'"' ∷ rest)) (unit_quote-cons c s)
    ∙ read_quoted-byte c (unit_quote s) rest first
    ∙ later
