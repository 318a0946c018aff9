-- ===== src/Prelude/Equality.antt =====
-- Go's `==` on comparable types as an interface, with its instances for numbers, texts and chat ids.
-- A Go string is its sequence of bytes.
use Prim.Native.Nat.{ℕ}
use Prim.Native.Char.{code}
use Prim.Native.String.{String}
use mathlib.Core.Path.{◌≡◌, refl}
use mathlib.Core.Logic.{◌≢◌, ◌↔◌, inl, inr}
use mathlib.Core.Bool.{Bool, true, false, ◌&&◌}
use mathlib.Core.List.{List, [], ◌∷◌}
use native.Mathlib.Omega.{arith}
use nomctl.Prelude.Tests.{nat_eqb, nat_eqb_iff, Bool-cases}
use nomctl.Prelude.Int.{ℤ, pos, negsuc}

pub record Eq {ℓ} (A : Type ℓ) : Type ℓ where
  pub eqb : A → A → Bool
  pub eqb_iff : (a b : A) → (eqb a b ≡ true) ↔ (a ≡ b)

infix 50 ◌==◌
abbrev pub ◌==◌ {ℓ} : {A : Type ℓ} ⦃e : Eq A⦄ → A → A → Bool
◌==◌ ⦃e⦄ = e.eqb

instance abbrev pub nat_eq : Eq ℕ
nat_eq = record { eqb = nat_eqb; eqb_iff = nat_eqb_iff }

-- A Go string.
abbrev pub Text : Type 0
Text = List ℕ

-- The bytes of an ASCII literal.
abbrev pub bytes : String → Text
bytes String.[] = []
bytes (String.◌∷◌ c s) = code c ∷ bytes s

abbrev pub text_eqb : Text → Text → Bool
text_eqb [] [] = true
text_eqb (a ∷ s) (b ∷ t) = nat_eqb a b && text_eqb s t
text_eqb _ _ = false

text_eqb→eq : (s t : Text) → text_eqb s t ≡ true → s ≡ t
text_eqb→eq [] [] h = refl
text_eqb→eq [] (b ∷ t) h = cc
text_eqb→eq (a ∷ s) [] h = cc
text_eqb→eq (a ∷ s) (b ∷ t) h = ground (arith, text_eqb→eq s t)

text_eqb_refl : (s : Text) → text_eqb s s ≡ true
text_eqb_refl [] = refl
text_eqb_refl (a ∷ s) = ground (arith, text_eqb_refl s)

text_eqb_of_eq : (s t : Text) → s ≡ t → text_eqb s t ≡ true
text_eqb_of_eq s t h = rw h (text_eqb_refl t)

pub text_eqb_iff : (s t : Text) → (text_eqb s t ≡ true) ↔ (s ≡ t)
text_eqb_iff s t = (text_eqb→eq s t, text_eqb_of_eq s t)

instance abbrev pub text_eq : Eq Text
text_eq = record { eqb = text_eqb; eqb_iff = text_eqb_iff }

abbrev pub int_eqb : ℤ → ℤ → Bool
int_eqb (pos a) (pos b) = nat_eqb a b
int_eqb (negsuc a) (negsuc b) = nat_eqb a b
int_eqb _ _ = false

pub int_eqb_iff : (a b : ℤ) → (int_eqb a b ≡ true) ↔ (a ≡ b)
int_eqb_iff (pos a) (pos b) = ground arith
int_eqb_iff (negsuc a) (negsuc b) = ground arith
int_eqb_iff (pos a) (negsuc b) = ((λ h. cc), (λ h. cc))
int_eqb_iff (negsuc a) (pos b) = ((λ h. cc), (λ h. cc))

instance abbrev pub int_eq : Eq ℤ
int_eq = record { eqb = int_eqb; eqb_iff = int_eqb_iff }

pub eqb_refl {ℓ} : {A : Type ℓ} ⦃e : Eq A⦄ (a : A) → (a == a) ≡ true
eqb_refl ⦃e⦄ a = (e.eqb_iff a a).1 refl

pub eqb_ne {ℓ} : {A : Type ℓ} ⦃e : Eq A⦄ (a b : A) → ¬ (a ≡ b) → (a == b) ≡ false
eqb_ne ⦃e⦄ a b ne = elim (Bool-cases (a == b)) [
  | inl same ↦ absurd (ne ((e.eqb_iff a b).0 same))
  | inr apart ↦ apart
]

-- Texts that the test tells apart differ.
pub eqb_false : (s t : Text) → (s == t) ≡ false → s ≢ t
eqb_false s t h e = ground (arith, (text_eqb_iff s t).1 e)
