-- ===== src/Metrics/Commas.antt =====
-- The commas of a rendered number only separate its digits.
use nomctl.Prelude.{
  ℕ, zero, suc, ◌%◌, ◌≡◌, refl, ap, ◌∙◌, Bool, true, false, [], ◌∷◌, ◌++◌, Text, Lacks, arith,
  nat_eq, ◌==◌, format_nat, format_nat-Lacks, length, take, drop, ltb, keep, not, leb, if_cases,
  if◌then◌else◌,
}
use nomctl.Metrics.{groups, commas}

-- A text without its commas.
abbrev pub without_commas : Text → Text
without_commas s = keep (λ c. not (c == b',')) s

without_commas-append :
    (s t : Text) → without_commas (s ++ t) ≡ without_commas s ++ without_commas t
without_commas-append [] t = refl
without_commas-append (c ∷ s) t = ground (arith, without_commas-append s t)

without_commas-Lacks : (s : Text) → Lacks b',' s → without_commas s ≡ s
without_commas-Lacks [] h = refl
without_commas-Lacks (c ∷ s) (ne, h) = ground (arith, without_commas-Lacks s h)

Lacks-take : (n : ℕ) (s : Text) → Lacks b',' s → Lacks b',' (take n s)
Lacks-take zero s h = tt
Lacks-take (suc n) [] h = tt
Lacks-take (suc n) (c ∷ s) (ne, h) = (ne, Lacks-take n s h)

Lacks-drop : (n : ℕ) (s : Text) → Lacks b',' s → Lacks b',' (drop n s)
Lacks-drop zero s h = h
Lacks-drop (suc n) [] h = tt
Lacks-drop (suc n) (c ∷ s) (ne, h) = Lacks-drop n s h

take-drop : (n : ℕ) (s : Text) → take n s ++ drop n s ≡ s
take-drop zero s = refl
take-drop (suc n) [] = refl
take-drop (suc n) (c ∷ s) = ap (λ t. c ∷ t) (take-drop n s)

-- One round, with and without a comma in front.
without_commas-round :
    (sep : Bool) (s rest : Text)
    → Lacks b',' s
    → without_commas rest ≡ drop 3 s
    → without_commas ((if sep then b',' ∷ [] else []) ++ take 3 s ++ rest) ≡ s
without_commas-round true s rest h e =
    without_commas-append (take 3 s) rest
    ∙ rw (without_commas-Lacks (take 3 s) (Lacks-take 3 s h)) (rw e (take-drop 3 s))
without_commas-round false s rest h e =
    without_commas-append (take 3 s) rest
    ∙ rw (without_commas-Lacks (take 3 s) (Lacks-take 3 s h)) (rw e (take-drop 3 s))

without_commas-groups :
    (f : ℕ) (sep : Bool) (s : Text) → Lacks b',' s → without_commas (groups f sep s) ≡ s
unfolding groups
without_commas-groups zero sep s h = without_commas-Lacks s h
without_commas-groups (suc f) sep [] h = refl
without_commas-groups (suc f) sep (c ∷ s) h =
    without_commas-round sep (c ∷ s) (groups f true (drop 3 (c ∷ s))) h
      (without_commas-groups f true (drop 3 (c ∷ s)) (Lacks-drop 3 (c ∷ s) h))

-- Without its commas, a number with commas is the number's decimal form.
pub without_commas-commas : (n : ℕ) → without_commas (commas n) ≡ format_nat n
unfolding commas
without_commas-commas n =
    let s = format_nat n in
    let pre = length s % 3 in
    let plain = format_nat-Lacks b',' n (omega arith) in
    if_cases (λ (t : Text). without_commas t ≡ s) (leb (length s) 3) s _
      (λ _. without_commas-Lacks s plain)
      (λ _.
        without_commas-append (take pre s) (groups (length s) (ltb 0 pre) (drop pre s))
        ∙ rw (without_commas-Lacks (take pre s) (Lacks-take pre s plain)) (
            rw (without_commas-groups (length s) (ltb 0 pre) (drop pre s) (Lacks-drop pre s plain))
              (take-drop pre s)))
