-- ===== src/Prelude/Texts.antt =====
-- Texts with a separator, prefixes, and the decimal form of integers (`strconv.FormatInt`).
use Prim.Native.Nat.{ℕ, zero, suc, ◌+◌, ◌-◌, ◌*◌, ◌/◌, ◌%◌, ◌≤◌, ◌<◌}
use mathlib.Core.Path.{◌≡◌, refl, sym, ap, ◌∙◌}
use mathlib.Core.Logic.{◌≢◌}
use mathlib.Core.Bool.{Bool, true, false, ◌&&◌}
use mathlib.Core.List.{[], ◌∷◌, ◌++◌}
use native.Mathlib.Omega.{arith}
use nomctl.Prelude.Lists.{length, length-append}
use nomctl.Prelude.Tests.{ltb, nat_eqb, if◌then◌else◌}
use nomctl.Prelude.Int.{ℤ, pos, negsuc}
use nomctl.Prelude.Equality.{Text}

-- No byte of the text is `c`.
abbrev pub Lacks : ℕ → Text → Type 0
Lacks c [] = Unit
Lacks c (a ∷ s) = (a ≢ c) × Lacks c s

-- Where neither first part holds the separator, a joined text determines its parts.
pub join-injective :
    (c : ℕ) (s s' t t' : Text)
    → Lacks c s
    → Lacks c s'
    → s ++ c ∷ t ≡ s' ++ c ∷ t'
    → (s ≡ s') × (t ≡ t')
join-injective c [] [] t t' h h' e = ground arith
join-injective c [] (a ∷ s') t t' h h' e = ground arith
join-injective c (a ∷ s) [] t t' h h' e = ground arith
join-injective c (a ∷ s) (a' ∷ s') t t' h h' e =
    let tails : s ++ c ∷ t ≡ s' ++ c ∷ t' = ground arith in
    let ih = join-injective c s s' t t' h.1 h'.1 tails in ground arith

abbrev pub starts_with : Text → Text → Bool
starts_with [] s = true
starts_with (a ∷ p) [] = false
starts_with (a ∷ p) (b ∷ s) = nat_eqb a b && starts_with p s

-- Decimal digits; the fuel is the number itself and one more.
unfoldable pub digits : ℕ → ℕ → Text
digits zero n = []
digits (suc f) n =
    let more = digits f (n / 10) ++ (48 + n % 10) ∷ [] in if ltb n 10 then (48 + n) ∷ [] else more

unfoldable pub format_nat : ℕ → Text
unfolding digits
format_nat n = digits (suc n) n

unfoldable pub format_int : ℤ → Text
unfolding format_nat
format_int (pos n) = format_nat n
format_int (negsuc n) = b'-' ∷ format_nat (suc n)

abbrev value_from : ℕ → Text → ℕ
value_from acc [] = acc
value_from acc (c ∷ s) = value_from (acc * 10 + (c - 48)) s

value_from-append :
    (acc : ℕ) (s : Text) (c : ℕ) → value_from acc (s ++ c ∷ []) ≡ value_from acc s * 10 + (c - 48)
value_from-append acc [] c = refl
value_from-append acc (a ∷ s) c = value_from-append (acc * 10 + (a - 48)) s c

value-digits : (f n : ℕ) → n < f → value_from 0 (digits f n) ≡ n
unfolding digits
value-digits zero n h = elim h [ ]
value-digits (suc f) n h =
    ground (arith, value-digits f (n / 10), value_from-append 0 (digits f (n / 10)) (48 + n % 10))

pub format_nat-injective : (m n : ℕ) → format_nat m ≡ format_nat n → m ≡ n
unfolding format_nat
format_nat-injective m n e =
    sym (value-digits (suc m) m (omega arith))
    ∙ ap (value_from 0) e
    ∙ value-digits (suc n) n (omega arith)

abbrev IsDigits : Text → Type 0
IsDigits [] = Unit
IsDigits (c ∷ s) = (48 ≤ c) × (c < 58) × IsDigits s

IsDigits-append : (s : Text) (c : ℕ) → IsDigits s → 48 ≤ c → c < 58 → IsDigits (s ++ c ∷ [])
IsDigits-append [] c h p q = (p, q, tt)
IsDigits-append (a ∷ s) c (x, y, h) p q = (x, y, IsDigits-append s c h p q)

digits-IsDigits : (f n : ℕ) → IsDigits (digits f n)
unfolding digits
digits-IsDigits zero n = tt
digits-IsDigits (suc f) n =
    ground (arith, IsDigits-append (digits f (n / 10)) (48 + n % 10), digits-IsDigits f (n / 10))

digits-Lacks : (c : ℕ) (s : Text) → c < 48 → IsDigits s → Lacks c s
digits-Lacks c [] h d = tt
digits-Lacks c (a ∷ s) h (p, q, d) = (omega arith, digits-Lacks c s h d)

pub format_nat-Lacks : (c n : ℕ) → c < 45 → Lacks c (format_nat n)
unfolding format_nat
format_nat-Lacks c n h = digits-Lacks c _ (omega arith) (digits-IsDigits (suc n) n)

pub format_int-Lacks : (c : ℕ) (n : ℤ) → c < 45 → Lacks c (format_int n)
unfolding format_int
format_int-Lacks c (pos n) h = digits-Lacks c _ (omega arith) (digits-IsDigits (suc n) n)
format_int-Lacks c (negsuc n) h =
    (omega arith, digits-Lacks c _ (omega arith) (digits-IsDigits (suc (suc n)) (suc n)))

-- A decimal number does not begin with a minus sign.
no_sign : (s t : Text) → IsDigits s → s ≢ b'-' ∷ t
no_sign [] t d e = cc
no_sign (a ∷ s) t (p, q, d) e = ground arith

-- The decimal form determines the integer.
pub format_int-injective : (m n : ℤ) → format_int m ≡ format_int n → m ≡ n
unfolding format_int
format_int-injective (pos m) (pos n) e = ap pos (format_nat-injective m n e)
format_int-injective (pos m) (negsuc n) e = absurd (no_sign _ _ (digits-IsDigits (suc m) m) e)
format_int-injective (negsuc m) (pos n) e = absurd (no_sign _ _ (digits-IsDigits (suc n) n) (sym e))
format_int-injective (negsuc m) (negsuc n) e =
    let tails : format_nat (suc m) ≡ format_nat (suc n) = ground arith in
    let same = format_nat-injective (suc m) (suc n) tails in ground arith

-- A text with more behind it is another text.
pub longer_ne : (s : Text) (c : ℕ) (t : Text) → s ++ c ∷ t ≢ s
longer_ne s c t e =
    let same : length (s ++ c ∷ t) ≡ length s = ap length e in
    omega (arith, length-append s (c ∷ t))

-- The same text in front of two that differ.
pub append_ne : (s t u : Text) → t ≢ u → s ++ t ≢ s ++ u
append_ne [] t u ne e = ne e
append_ne (c ∷ s) t u ne e = let rest : s ++ t ≡ s ++ u = ground arith in append_ne s t u ne rest

abbrev pub last_or : ℕ → Text → ℕ
last_or d [] = d
last_or d (c ∷ s) = last_or c s

pub last_or-append : (d c : ℕ) (s t : Text) → last_or d (s ++ c ∷ t) ≡ last_or c t
last_or-append d c [] t = refl
last_or-append d c (a ∷ s) t = last_or-append a c s t

pub front_ne : (a : ℕ) (s t : Text) → a ∷ s ++ t ≢ t
front_ne a s t e =
    let same : length (a ∷ s ++ t) ≡ length t = ap length e in omega (arith, length-append s t)

pub append_assoc : (s t u : Text) → (s ++ t) ++ u ≡ s ++ (t ++ u)
append_assoc [] t u = refl
append_assoc (a ∷ s) t u = ap (λ r. a ∷ r) (append_assoc s t u)

-- A number's last byte is a digit.
pub last_or-format_nat : (d n : ℕ) → last_or d (format_nat n) < 58
unfolding format_nat digits
last_or-format_nat d n = ground (arith, last_or-append d (48 + n % 10) (digits n (n / 10)) [])
