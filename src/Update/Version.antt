-- ===== src/Update/Version.antt =====
-- Versions of internal/update/update.go: `ParseVersion`, `Newer`, `ArchiveName`, `SameCommit`.
pub mod Order
use nomctl.Prelude.{
  ℕ, suc, ◌+◌, ◌*◌, Bool, true, false, not, ◌&&◌, ◌||◌, Option, none, some, List, [], ◌∷◌, ◌++◌,
  Text, bytes, text_eq, ◌==◌, nat_eqb, ltb, leb, length, drop, starts_with, if◌then◌else◌,
}

-- What the versions take from the standard library; `atoi` gives none for what is not a number or
-- negative, which the source refuses alike.
pub record Strings : Type 0 where
  pub trim_space : Text → Text
  pub to_lower : Text → Text
  pub atoi : Text → Option ℕ

pub record Release : Type 0 where
  pub major : ℕ
  pub minor : ℕ
  pub patch : ℕ

-- `strings.TrimPrefix(s, "v")`
unfoldable pub trim_v : Text → Text
trim_v s = if starts_with (bytes "v") s then drop 1 s else s

-- The text before the first '-' or '+'.
unfoldable pub before_suffix : Text → Text
before_suffix [] = []
before_suffix (c ∷ s) =
    let rest = before_suffix s in if nat_eqb c b'-' || nat_eqb c b'+' then [] else c ∷ rest

abbrev pub add_head : ℕ → List Text → List Text
add_head c [] = (c ∷ []) ∷ []
add_head c (t ∷ ts) = (c ∷ t) ∷ ts

-- `strings.Split(s, sep)` for one byte.
unfoldable pub split_at : ℕ → Text → List Text
split_at sep [] = [] ∷ []
split_at sep (c ∷ s) =
    let rest = split_at sep s in if nat_eqb c sep then [] ∷ rest else add_head c rest

abbrev release_of : Option ℕ → Option ℕ → Option ℕ → Option Release
release_of (some a) (some b) (some c) = some (record { major = a; minor = b; patch = c })
release_of _ _ _ = none

-- The loop of `Newer`.
abbrev pub higher : Release → Release → Bool
higher c r =
    if not (nat_eqb c.major r.major)
    then ltb r.major c.major
    else if not (nat_eqb c.minor r.minor)
    then ltb r.minor c.minor
    else if not (nat_eqb c.patch r.patch)
    then ltb r.patch c.patch
    else false

abbrev pub newer_of : Option Release → Option Release → Bool
newer_of (some c) (some r) = higher c r
newer_of _ _ = false

module _ (strings : Strings) where
  abbrev three_fields : List Text → Option Release
  three_fields (a ∷ b ∷ c ∷ []) = release_of (strings.atoi a) (strings.atoi b) (strings.atoi c)
  three_fields _ = none

  unfoldable pub parse_version : Text → Option Release
  parse_version s = three_fields (split_at b'.' (before_suffix (trim_v (strings.trim_space s))))

  unfoldable pub newer : Text → Text → Bool
  newer candidate running = newer_of (parse_version candidate) (parse_version running)

  unfoldable pub same_commit : Text → Text → Bool
  same_commit short full =
      let s = strings.to_lower (strings.trim_space short) in
      let f = strings.to_lower (strings.trim_space full) in
      not (s == []) && leb 7 (length s) && starts_with s f

unfoldable pub archive_name : Text → Text → Text
archive_name tag goarch =
    bytes "nomctl_" ++ trim_v tag ++ bytes "_linux_" ++ goarch ++ bytes ".tar.gz"
