-- ===== src/Prelude/Sort.antt =====
-- `sort.Slice` as insertion sort by a Boolean test. The library's sort may order equal elements
-- otherwise; the callers sort by keys that are distinct.
use mathlib.Core.Logic.{inl, inr}
use mathlib.Core.Path.{◌≡◌, refl}
use mathlib.Core.Bool.{Bool, true, false}
use native.Mathlib.Omega.{arith}
use nomctl.Prelude.Lists.{all}
use mathlib.Core.List.{List, [], ◌∷◌, Perm}
use mathlib.Core.List.Perm
use nomctl.Prelude.Tests.{nat_eqb, ltb, Bool-cases, if◌then◌else◌}
use nomctl.Prelude.Equality.{Text}

-- Go's `<` on strings.
abbrev pub text_ltb : Text → Text → Bool
text_ltb [] [] = false
text_ltb [] (b ∷ t) = true
text_ltb (a ∷ s) [] = false
text_ltb (a ∷ s) (b ∷ t) = if nat_eqb a b then text_ltb s t else ltb a b

module _ {ℓ} {A : Type ℓ} (less : A → A → Bool) where
  pub insert_by : A → List A → List A
  insert_by x [] = x ∷ []
  insert_by x (y ∷ ys) = let later = insert_by x ys in if less y x then y ∷ later else x ∷ y ∷ ys

  unfoldable pub sort_by : List A → List A
  unfolding insert_by
  sort_by [] = []
  sort_by (x ∷ xs) = insert_by x (sort_by xs)

  insert_by-perm : (x : A) (ys : List A) → Perm (insert_by x ys) (x ∷ ys)
  unfolding insert_by
  insert_by-perm x [] = Perm.refl _
  insert_by-perm x (y ∷ ys) = elim (Bool-cases (less y x)) [
    | inl before ↦ rw before (Perm.trans (Perm.cons y (insert_by-perm x ys)) (Perm.swap x y ys))
    | inr after ↦ rw after (Perm.refl _)
  ]

  -- Sorting reorders.
  pub sort_by-perm : (xs : List A) → Perm (sort_by xs) xs
  unfolding sort_by
  sort_by-perm [] = Perm.refl _
  sort_by-perm (x ∷ xs) = Perm.trans (insert_by-perm x (sort_by xs)) (Perm.cons x (sort_by-perm xs))

-- A test that each element passes, each element of the sorted list passes.
module _ {ℓ} {A : Type ℓ} (p : A → Bool) (less : A → A → Bool) where
  all-insert_by :
      (x : A) (xs : List A) → p x ≡ true → all p xs ≡ true → all p (insert_by less x xs) ≡ true
  unfolding insert_by
  all-insert_by x [] h g = ground arith
  all-insert_by x (y ∷ ys) h g = ground (arith, all-insert_by x ys)

  pub all-sort_by : (xs : List A) → all p xs ≡ true → all p (sort_by less xs) ≡ true
  unfolding sort_by
  all-sort_by [] h = refl
  all-sort_by (x ∷ xs) h =
      all-insert_by x (sort_by less xs) (ground arith) (all-sort_by xs (ground arith))
