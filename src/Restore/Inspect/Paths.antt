-- ===== src/Restore/Inspect/Paths.antt =====
-- Paths in an archive: where `entryPath` of internal/restore/archive.go sends a name, and where it leads.
use nomctl.Prelude.{
  ℕ, zero, suc, ◌≡◌, ◌≢◌, ap, refl, inl, inr, Bool, true, false, not, ◌||◌, List, [], ◌∷◌, Text,
  bytes, text_eq, text_eqb_iff, ◌==◌, all, nat_eqb, ◌++◌, arith, Bool-cases, if◌then◌else◌,
}
use nomctl.Restore.Inspect.{cut}

abbrev with_first : ℕ → List Text → List Text
with_first c [] = (c ∷ []) ∷ []
with_first c (t ∷ ts) = (c ∷ t) ∷ ts

-- The elements of a path, the empty ones included.
unfoldable pub elements : Text → List Text
elements [] = [] ∷ []
elements (c ∷ s) = let rest = elements s in if nat_eqb c b'/' then [] ∷ rest else with_first c rest

abbrev named_before : Text → ℕ → List Text → ℕ × List Text
named_before e zero es = (0, e ∷ es)
named_before e (suc n) es = (n, es)

-- One element before a path that goes up so many levels first.
abbrev pub element_before : Text → ℕ × List Text → ℕ × List Text
element_before e (ups, es) =
    if e == [] || e == bytes "."
    then (ups, es)
    else if e == bytes ".."
    then (suc ups, es)
    else named_before e ups es

unfoldable pub resolve : List Text → ℕ × List Text
resolve [] = (0, [])
resolve (e ∷ es) = element_before e (resolve es)

-- Where a name in an archive leads from its root, which nothing leads above.
abbrev pub resolved : Text → List Text
resolved name = (resolve (elements name)).1

abbrev pub join_path : List Text → Text
join_path [] = []
join_path (e ∷ []) = e
join_path (e ∷ f ∷ es) = e ++ b'/' ∷ join_path (f ∷ es)

-- What `path.Clean` promises for a rooted path: the elements left when each . is dropped, and each .. with
-- the element before it.
pub record IsClean (clean : Text → Text) : Type 0 where
  pub rooted : (name : Text) → clean (b'/' ∷ name) ≡ b'/' ∷ join_path (resolved name)

abbrev pub has_no_slash : Text → Bool
has_no_slash = all (λ c. not (nat_eqb c b'/'))

-- An element that a path can lead through.
pub record IsProper (e : Text) : Type 0 where
  pub full : e ≢ []
  pub not_dot : e ≢ bytes "."
  pub whole : has_no_slash e ≡ true

abbrev pub AllWhole : List Text → Type 0
AllWhole [] = Unit
AllWhole (e ∷ es) = (has_no_slash e ≡ true) × AllWhole es

abbrev pub AreProper : List Text → Type 0
AreProper [] = Unit
AreProper (e ∷ es) = IsProper e × AreProper es

AllWhole-with_first :
    (c : ℕ) (es : List Text) → nat_eqb c b'/' ≡ false → AllWhole es → AllWhole (with_first c es)
AllWhole-with_first c [] h w = (rw h refl, tt)
AllWhole-with_first c (e ∷ es) h w = (rw h w.0, w.1)

pub AllWhole-elements : (s : Text) → AllWhole (elements s)
unfolding elements
AllWhole-elements [] = (refl, tt)
AllWhole-elements (c ∷ s) = elim (Bool-cases (nat_eqb c b'/')) [
  | inl slash ↦ rw slash (refl, AllWhole-elements s)
  | inr plain ↦ rw plain (AllWhole-with_first c (elements s) plain (AllWhole-elements s))
]

AreProper-named :
    (e : Text) (n : ℕ) (es : List Text)
    → IsProper e
    → AreProper es
    → AreProper (named_before e n es).1
AreProper-named e zero es proper p = (proper, p)
AreProper-named e (suc n) es proper p = p

AreProper-before :
    (e : Text) (r : ℕ × List Text)
    → has_no_slash e ≡ true
    → AreProper r.1
    → AreProper (element_before e r).1
AreProper-before e (ups, es) w p = elim (Bool-cases (e == [] || e == bytes ".")) [
  | inl nothing ↦ rw nothing p
  | inr something ↦ rw something (elim (Bool-cases (e == bytes "..")) [
    | inl up ↦ rw up p
    | inr named ↦ rw named (
        AreProper-named e ups es
          (record {
            full = λ q. ground (arith, text_eqb_iff e []);
            not_dot = λ q. ground (arith, text_eqb_iff e (bytes "."));
            whole = w;
          })
          p)
  ])
]

pub AreProper-resolve : (es : List Text) → AllWhole es → AreProper (resolve es).1
unfolding resolve
AreProper-resolve [] w = tt
AreProper-resolve (e ∷ es) w = AreProper-before e (resolve es) w.0 (AreProper-resolve es w.1)

cut-whole : (e s : Text) → has_no_slash e ≡ true → cut (e ++ b'/' ∷ s) ≡ (e, s)
unfolding cut
cut-whole [] s w = refl
cut-whole (c ∷ e) s w =
    let ih = cut-whole e s (ground arith) in
    let plain : nat_eqb c b'/' ≡ false = ground arith in rw (plain, ih) refl

cut-all : (e : Text) → has_no_slash e ≡ true → cut e ≡ (e, [])
unfolding cut
cut-all [] w = refl
cut-all (c ∷ e) w =
    let ih = cut-all e (ground arith) in
    let plain : nat_eqb c b'/' ≡ false = ground arith in rw (plain, ih) refl

pub cut-join_path :
    (e : Text) (es : List Text) → IsProper e → cut (join_path (e ∷ es)) ≡ (e, join_path es)
cut-join_path e [] p = cut-all e p.whole
cut-join_path e (f ∷ es) p = cut-whole e (join_path (f ∷ es)) p.whole

pub join_path-full :
    (e : Text) (es : List Text)
    → IsProper e
    → (join_path (e ∷ es) == [] || join_path (e ∷ es) == bytes ".") ≡ false
join_path-full [] es p = absurd (p.full refl)
join_path-full (c ∷ []) [] p = elim (Bool-cases (nat_eqb c b'.')) [
  | inl dot ↦ absurd (p.not_dot (let same : c ≡ b'.' = ground arith in ap (λ d. d ∷ []) same))
  | inr plain ↦ ground arith
]
join_path-full (c ∷ []) (f ∷ es) p = ground arith
join_path-full (c ∷ d ∷ e) [] p = ground arith
join_path-full (c ∷ d ∷ e) (f ∷ es) p = ground arith
