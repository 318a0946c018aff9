-- ===== src/Update/Version/Order.antt =====
-- The order of releases in `Newer` of internal/update/update.go.
use nomctl.Prelude.{
  ◌<◌, ◌≡◌, ◌↔◌, inl, inr, refl, true, Option, none, some, Text, arith, nat_eqb, Bool-cases,
}
use nomctl.Update.Version.{Strings, Release, parse_version, higher, newer_of, newer}

-- A release comes before another by its first part that differs.
pub data IsBefore (r c : Release) : Type 0 where
  by_major : r.major < c.major → IsBefore r c
  by_minor : r.major ≡ c.major → r.minor < c.minor → IsBefore r c
  by_patch : r.major ≡ c.major → r.minor ≡ c.minor → r.patch < c.patch → IsBefore r c

higher→IsBefore : (c r : Release) → higher c r ≡ true → IsBefore r c
higher→IsBefore c r h = elim (Bool-cases (nat_eqb c.major r.major)) [
  | inr other ↦ by_major (ground arith)
  | inl same ↦ elim (Bool-cases (nat_eqb c.minor r.minor)) [
    | inr other ↦ by_minor (ground arith) (ground arith)
    | inl same' ↦ by_patch (ground arith) (ground arith) (ground arith)
  ]
]

IsBefore→higher : (c r : Release) → IsBefore r c → higher c r ≡ true
IsBefore→higher c r (by_major h) = ground arith
IsBefore→higher c r (by_minor e h) = ground arith
IsBefore→higher c r (by_patch e e' h) = ground arith

IsBefore-trans : (a b c : Release) → IsBefore a b → IsBefore b c → IsBefore a c
IsBefore-trans a b c (by_major h) (by_major g) = by_major (omega arith)
IsBefore-trans a b c (by_major h) (by_minor e g) = by_major (omega arith)
IsBefore-trans a b c (by_major h) (by_patch e e' g) = by_major (omega arith)
IsBefore-trans a b c (by_minor e h) (by_major g) = by_major (omega arith)
IsBefore-trans a b c (by_minor e h) (by_minor d g) = by_minor (omega arith) (omega arith)
IsBefore-trans a b c (by_minor e h) (by_patch d d' g) = by_minor (omega arith) (omega arith)
IsBefore-trans a b c (by_patch e e' h) (by_major g) = by_major (omega arith)
IsBefore-trans a b c (by_patch e e' h) (by_minor d g) = by_minor (omega arith) (omega arith)
IsBefore-trans a b c (by_patch e e' h) (by_patch d d' g) =
    by_patch (omega arith) (omega arith) (omega arith)

newer_of→releases :
    (c r : Option Release)
    → newer_of c r ≡ true
    → (a : Release) × (b : Release) × (c ≡ some a) × (r ≡ some b) × IsBefore b a
newer_of→releases (some a) (some b) h = (a, b, refl, refl, higher→IsBefore a b h)
newer_of→releases none r h = cc
newer_of→releases (some a) none h = cc

module _ (strings : Strings) where
  releases→newer :
      (candidate running : Text) (a b : Release)
      → parse_version strings candidate ≡ some a
      → parse_version strings running ≡ some b
      → IsBefore b a
      → newer strings candidate running ≡ true
  unfolding newer
  releases→newer candidate running a b p q h = rw (p, q) (IsBefore→higher a b h)

  -- A candidate is newer exactly if both texts are releases and the running one comes before it, by
  -- the first of major, minor and patch that differs. What is no release never has an update.
  pub newer_iff :
      (candidate running : Text)
      → (newer strings candidate running ≡ true) ↔ (
          (a : Release) × (b : Release) × (parse_version strings candidate ≡ some a)
          × (parse_version strings running ≡ some b)
          × IsBefore b a)
  unfolding newer
  newer_iff candidate running = (
    newer_of→releases (parse_version strings candidate) (parse_version strings running),
    λ w. let (a, b, p, q, h) = w in releases→newer candidate running a b p q h,
  )

  -- The order is transitive: what is newer than a newer version is newer.
  pub newer_trans :
      (a b c : Text)
      → newer strings a b ≡ true
      → newer strings b c ≡ true
      → newer strings a c ≡ true
  newer_trans a b c h g =
      let (x, y, p, q, before) = (newer_iff a b).0 h in
      let (y', z, p', q', before') = (newer_iff b c).0 g in
      let same : y ≡ y' = ground arith in
      releases→newer a c x z p q' (IsBefore-trans z y x (rw same before') before)
