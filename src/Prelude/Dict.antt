-- ===== src/Prelude/Dict.antt =====
-- Go maps as association lists: one entry for each key, in an order that no theorem relies on.
use Prim.Native.Nat.{◌+◌, ◌≤◌}
use mathlib.Core.Path.{◌≡◌, refl}
use mathlib.Core.Bool.{Bool}
use mathlib.Core.Option.{Option, none, some}
use mathlib.Core.List.{List, [], ◌∷◌}
use native.Mathlib.Omega.{arith}
use nomctl.Prelude.Tests.{if◌then◌else◌}
use nomctl.Prelude.Equality.{Eq, ◌==◌, eqb_ne, eqb_refl}
use mathlib.Core.Logic.{◌≢◌}
use nomctl.Prelude.Lists.{length}

abbrev pub Dict {ℓ κ} : Type ℓ → Type κ → Type (ℓ ⊔ κ)
Dict K V = List (K × V)

module _ {ℓ κ} {K : Type ℓ} {V : Type κ} where
  abbrev pub values : Dict K V → List V
  values [] = []
  values ((j, v) ∷ m) = v ∷ values m

  -- `for k, v := range m { if test { delete(m, k) } }`
  unfoldable pub delete_where : (K → V → Bool) → Dict K V → Dict K V
  delete_where p [] = []
  delete_where p ((j, v) ∷ m) = let rest = delete_where p m in if p j v then rest else (j, v) ∷ rest

  pub length-delete_where : (p : K → V → Bool) (m : Dict K V) → length (delete_where p m) ≤ length m
  unfolding delete_where
  length-delete_where p [] = omega arith
  length-delete_where p ((j, v) ∷ m) = ground (arith, length-delete_where p m)

module _ {ℓ κ} {K : Type ℓ} {V : Type κ} ⦃e : Eq K⦄ where
  unfoldable pub get : K → Dict K V → Option V
  get k [] = none
  get k ((j, v) ∷ m) = if j == k then some v else get k m

  unfoldable pub put : K → V → Dict K V → Dict K V
  put k v [] = (k, v) ∷ []
  put k v ((j, w) ∷ m) = let rest = put k v m in if j == k then (k, v) ∷ m else (j, w) ∷ rest

  unfoldable pub remove : K → Dict K V → Dict K V
  remove k [] = []
  remove k ((j, v) ∷ m) = let rest = remove k m in if j == k then rest else (j, v) ∷ rest

  pub get-put :
      (k j : K) (v : V) (m : Dict K V) → get j (put k v m) ≡ (if k == j then some v else get j m)
  unfolding get put
  get-put k j v [] = refl
  get-put k j v ((i, w) ∷ m) =
      ground (arith, e.eqb_iff k j, e.eqb_iff i k, e.eqb_iff i j, get-put k j v m)

  pub get-remove :
      (k j : K) (m : Dict K V) → get j (remove k m) ≡ (if k == j then none else get j m)
  unfolding get remove
  get-remove k j [] = ground arith
  get-remove k j ((i, v) ∷ m) =
      ground (arith, e.eqb_iff k j, e.eqb_iff i k, e.eqb_iff i j, get-remove k j m)

  -- A deletion by key alone.
  pub get-delete_where :
      (p : K → Bool) (j : K) (m : Dict K V)
      → get j (delete_where (λ k _. p k) m) ≡ (if p j then none else get j m)
  unfolding get delete_where
  get-delete_where p j [] = ground arith
  get-delete_where p j ((i, v) ∷ m) = ground (arith, e.eqb_iff i j, get-delete_where p j m)

  pub length-put : (k : K) (v : V) (m : Dict K V) → length (put k v m) ≤ length m + 1
  unfolding put
  length-put k v [] = omega arith
  length-put k v ((j, w) ∷ m) = ground (arith, length-put k v m)

  -- A write to a key that is there adds no entry.
  pub length-put_known :
      (k : K) (v w : V) (m : Dict K V) → get k m ≡ some w → length (put k v m) ≡ length m
  unfolding get put
  length-put_known k v w [] h = cc
  length-put_known k v w ((j, u) ∷ m) h = ground (arith, length-put_known k v w m)

module _ {ℓ κ} {K : Type ℓ} {V : Type κ} ⦃e : Eq K⦄ where
  pub get-put_other : (k j : K) (v : V) (m : Dict K V) → k ≢ j → get j (put k v m) ≡ get j m
  get-put_other k j v m ne = ground (arith, get-put k j v m, eqb_ne k j ne)

  pub get-put_same : (k : K) (v : V) (m : Dict K V) → get k (put k v m) ≡ some v
  get-put_same k v m = ground (arith, get-put k k v m, eqb_refl k)

pub ruleset dict_laws = (get-put, get-remove, get-delete_where)

-- One entry for each key, as in every Go map.
module _ {ℓ κ} {K : Type ℓ} {V : Type κ} ⦃e : Eq K⦄ where
  abbrev pub Distinct : Dict K V → Type κ
  Distinct [] = Unit
  Distinct ((j, v) ∷ m) = (get j m ≡ none) × Distinct m

  pub Distinct-put : (k : K) (v : V) (m : Dict K V) → Distinct m → Distinct (put k v m)
  unfolding put
  Distinct-put k v [] d = (unfold get in refl, tt)
  Distinct-put k v ((j, w) ∷ m) d =
      ground (arith, e.eqb_iff j k, e.eqb_iff k j, get-put k j v m, Distinct-put k v m d.1)

  pub get-delete_where-none :
      (p : K → V → Bool) (j : K) (m : Dict K V) → get j m ≡ none → get j (delete_where p m) ≡ none
  unfolding get delete_where
  get-delete_where-none p j [] h = refl
  get-delete_where-none p j ((i, v) ∷ m) h = ground (arith, get-delete_where-none p j m)

  pub Distinct-delete_where :
      (p : K → V → Bool) (m : Dict K V) → Distinct m → Distinct (delete_where p m)
  unfolding delete_where
  Distinct-delete_where p [] d = tt
  Distinct-delete_where p ((j, v) ∷ m) d =
      ground (arith, get-delete_where-none p j m d.0, Distinct-delete_where p m d.1)

  -- An entry survives a deletion by a test exactly if it does not pass the test.
  pub get-delete_where_if :
      (p : K → V → Bool) (j : K) (m : Dict K V)
      → Distinct m
      → get j (delete_where p m)
        ≡ (elim (get j m) [ none ↦ none | some v ↦ if p j v then none else some v ])
  unfolding get delete_where
  get-delete_where_if p j [] d = refl
  get-delete_where_if p j ((i, v) ∷ m) d = ground (
    arith,
    e.eqb_iff i j,
    get-delete_where_if p j m d.1,
    get-delete_where-none p j m,
    get-delete_where-none p i m d.0,
  )
