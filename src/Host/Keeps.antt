-- ===== src/Host/Keeps.antt =====
-- What an action keeps, with one rule for each way to build an action.
use nomctl.Prelude.{
  Option, none, some, arith, ◌≡◌, ◌≢◌, ◌∙◌, sym, ap, ◌⊎◌, inl, inr, refl, Bool, true, false, Text,
  Result, ok, err, if◌then◌else◌,
}
use nomctl.Host.{attempt, Host, Act, Fallible, pure, raise, or_else, ◌>>=◌, exists, is_dir}

-- `m` keeps `P`, whether it succeeds or fails.
pub record Keeps {S A : Type 0} (P : S → Type 0) (m : Fallible S A) : Type 0 where
  pub at : (h : S) → P h → P (m h).1

module _ {S A : Type 0} {P : S → Type 0} where
  pub Keeps-pure : (a : A) → Keeps P (pure a)
  unfolding pure
  Keeps-pure a = record { at = λ h p. p }

  pub Keeps-raise : (e : Text) → Keeps P (raise {A = A} e)
  unfolding raise
  Keeps-raise e = record { at = λ h p. p }

  pub Keeps-if :
      (b : Bool) (m n : Fallible S A) → Keeps P m → Keeps P n → Keeps P (if b then m else n)
  Keeps-if true m n km kn = km
  Keeps-if false m n km kn = kn

  pub Keeps-option :
      (r : Option Text) (m : Fallible S A) (n : Text → Fallible S A)
      → Keeps P m
      → ((x : Text) → Keeps P (n x))
      → Keeps P (elim r [ none ↦ m | some x ↦ n x ])
  Keeps-option none m n km kn = km
  Keeps-option (some x) m n km kn = kn x

  Keeps-handle :
      (r : Result Text A) (f : Text → Fallible S A) (h : S)
      → ((e : Text) → Keeps P (f e))
      → P h
      → P (or_else (λ g. (r, g)) f h).1
  unfolding or_else
  Keeps-handle (ok a) f h kf p = p
  Keeps-handle (err e) f h kf p = (kf e).at h p

  pub Keeps-or_else :
      (m : Fallible S A) (f : Text → Fallible S A)
      → Keeps P m
      → ((e : Text) → Keeps P (f e))
      → Keeps P (or_else m f)
  unfolding or_else
  Keeps-or_else m f km kf = record {
    at = λ h p. let (r, h') = m h in Keeps-handle r f h' kf (km.at h p);
  }

module _ {S A B : Type 0} {P : S → Type 0} where
  Keeps-continue :
      (r : Result Text A) (f : A → Fallible S B) (h : S)
      → ((a : A) → Keeps P (f a))
      → P h
      → P (((λ g. (r, g)) >>= f) h).1
  unfolding ◌>>=◌
  Keeps-continue (ok a) f h kf p = (kf a).at h p
  Keeps-continue (err e) f h kf p = p

  pub Keeps-bind :
      (m : Fallible S A) (f : A → Fallible S B)
      → Keeps P m
      → ((a : A) → Keeps P (f a))
      → Keeps P (m >>= f)
  unfolding ◌>>=◌
  Keeps-bind m f km kf = record {
    at = λ h p. let (r, h') = m h in Keeps-continue r f h' kf (km.at h p);
  }

-- How a sequence of two actions ends: with the error of the first, or as the second does.
module _ {S A B : Type 0} where
  continue-cases :
      (r : Result Text A) (h : S) (f : A → Fallible S B)
      → ((e : Text) × (r ≡ err e) × (((λ g. (r, g)) >>= f) h ≡ (err e, h)))
        ⊎ ((a : A) × (r ≡ ok a) × (((λ g. (r, g)) >>= f) h ≡ f a h))
  unfolding ◌>>=◌
  continue-cases (err e) h f = inl (e, refl, refl)
  continue-cases (ok a) h f = inr (a, refl, refl)

  pub bind-cases :
      (m : Fallible S A) (f : A → Fallible S B) (h : S)
      → ((e : Text) × ((m h).0 ≡ err e) × ((m >>= f) h ≡ (err e, (m h).1)))
        ⊎ ((a : A) × ((m h).0 ≡ ok a) × ((m >>= f) h ≡ f a (m h).1))
  unfolding ◌>>=◌
  bind-cases m f h = continue-cases (m h).0 (m h).1 f

-- How an action with a fallback ends: well, or as the fallback does.
module _ {S A : Type 0} where
  handle-cases :
      (r : Result Text A) (h : S) (f : Text → Fallible S A)
      → ((a : A) × (r ≡ ok a) × (or_else (λ g. (r, g)) f h ≡ (ok a, h)))
        ⊎ ((e : Text) × (r ≡ err e) × (or_else (λ g. (r, g)) f h ≡ f e h))
  unfolding or_else
  handle-cases (ok a) h f = inl (a, refl, refl)
  handle-cases (err e) h f = inr (e, refl, refl)

  pub or_else-cases :
      (m : Fallible S A) (f : Text → Fallible S A) (h : S)
      → ((a : A) × ((m h).0 ≡ ok a) × (or_else m f h ≡ (ok a, (m h).1)))
        ⊎ ((e : Text) × ((m h).0 ≡ err e) × (or_else m f h ≡ f e (m h).1))
  unfolding or_else
  or_else-cases m f h = handle-cases (m h).0 (m h).1 f

-- An action that ends with an error never succeeds.
module _ {S A B : Type 0} where
  raise_fails :
      (r : Result Text A) (h : S) (e : Text) (b : B)
      → (((λ g. (r, g)) >>= (λ _. raise e)) h).0 ≢ ok b
  unfolding ◌>>=◌ raise
  raise_fails (ok a) h e b x = ground arith
  raise_fails (err e') h e b x = ground arith

  pub bind-raise_fails :
      (m : Fallible S A) (e : Text) (h : S) (b : B) → ((m >>= (λ _. raise e)) h).0 ≢ ok b
  unfolding ◌>>=◌
  bind-raise_fails m e h b = raise_fails (m h).0 (m h).1 e b

module _ {S A : Type 0} where
  -- Where a fallback always fails, the action itself succeeded.
  pub or_else_done :
      (m : Fallible S A) (f : Text → Fallible S A) (h : S) (a : A)
      → ((e : Text) (g : S) → (f e g).0 ≢ ok a)
      → (or_else m f h).0 ≡ ok a
      → ((m h).0 ≡ ok a) × (or_else m f h ≡ m h)
  or_else_done m f h a fails x = elim (or_else-cases m f h) [
    | inl (a', done, same) ↦
        (let y : ok a' ≡ ok a = sym (ap (λ (r : Result Text A × S). r.0) same) ∙ x in
          (done ∙ y, rw (same, done)))
    | inr (e, failed, same) ↦
        absurd (fails e (m h).1 (sym (ap (λ (r : Result Text A × S). r.0) same) ∙ x))
  ]

module _ {S A B : Type 0} where
  pub bind_done :
      (m : Fallible S A) (f : A → Fallible S B) (h : S) (b : B)
      → ((m >>= f) h).0 ≡ ok b
      → (a : A) × ((m h).0 ≡ ok a) × ((m >>= f) h ≡ f a (m h).1)
  bind_done m f h b x = elim (bind-cases m f h) [
    | inr all_done ↦ all_done
    | inl (e, failed, same) ↦
        (let y : err e ≡ ok b = sym (ap (λ (r : Result Text B × S). r.0) same) ∙ x in
          absurd (ground arith))
  ]

module _ {P : Host → Type 0} where
  pub Keeps-exists : (p : Text) → Keeps P (exists p)
  unfolding exists
  Keeps-exists p = record { at = λ h x. x }

  pub Keeps-is_dir : (p : Text) → Keeps P (is_dir p)
  unfolding is_dir
  Keeps-is_dir p = record { at = λ h x. x }

  pub Keeps-attempt : (m : Act Unit) → Keeps P m → Keeps P (attempt m)
  Keeps-attempt m kept = search (Keeps-or_else, Keeps-bind, Keeps-pure) depth 6

pub ruleset keeps_rules =
    (Keeps-pure, Keeps-raise, Keeps-if, Keeps-or_else, Keeps-bind, Keeps-exists, Keeps-is_dir)
