-- ===== src/Host/Leads.antt =====
-- What an action leads to, from what it starts with.
use nomctl.Prelude.{◌⊎◌, inl, inr, Text}
use nomctl.Host.{attempt, Host, Act, ◌>>=◌, or_else}
use nomctl.Host.Keeps.{Keeps, keeps_rules, bind-cases, or_else-cases}

-- From P the action leads to Q, whether it succeeds or fails.
pub record Leads {A : Type 0} (P Q : Host → Type 0) (m : Act A) : Type 0 where
  pub at : (h : Host) → P h → Q (m h).1

module _ {A B : Type 0} {P Q R : Host → Type 0} where
  pub Leads-bind :
      (m : Act A) (f : A → Act B)
      → Leads P Q m
      → ((h : Host) → Q h → R h)
      → ((a : A) → Leads Q R (f a))
      → Leads P R (m >>= f)
  Leads-bind m f first early later = record {
    at = λ h p. elim (bind-cases m f h) [
      | inl (e, failed, same) ↦ rw same (early (m h).1 (first.at h p))
      | inr (a, done, same) ↦ rw same ((later a).at (m h).1 (first.at h p))
    ];
  }

module _ {A : Type 0} {P Q R : Host → Type 0} where
  pub Leads-or_else :
      (m : Act A) (f : Text → Act A)
      → Leads P Q m
      → ((h : Host) → Q h → R h)
      → ((e : Text) → Leads Q R (f e))
      → Leads P R (or_else m f)
  Leads-or_else m f first early later = record {
    at = λ h p. elim (or_else-cases m f h) [
      | inl (a, done, same) ↦ rw same (early (m h).1 (first.at h p))
      | inr (e, failed, same) ↦ rw same ((later e).at (m h).1 (first.at h p))
    ];
  }

module _ {A : Type 0} {P Q : Host → Type 0} where
  -- What is kept on either side.
  pub Leads-either : (m : Act A) → Keeps P m → Keeps Q m → Leads (λ h. P h ⊎ Q h) (λ h. P h ⊎ Q h) m
  Leads-either m p q = record {
    at = λ h either. elim either [ inl x ↦ inl (p.at h x) | inr y ↦ inr (q.at h y) ];
  }

  pub Leads-weaken : (m : Act A) → Keeps P m → ((h : Host) → P h → Q h) → Leads P Q m
  Leads-weaken m kept weaker = record { at = λ h p. weaker (m h).1 (kept.at h p) }

module _ {P Q : Host → Type 0} where
  pub Leads-attempt : (m : Act Unit) → Leads P Q m → Leads P Q (attempt m)
  Leads-attempt m leads =
      Leads-or_else _ _
        (Leads-bind _ _ leads (λ h q. q)
          (λ a. Leads-weaken _ (search keeps_rules depth 2) (λ h q. q)))
        (λ h q. q) (λ e. Leads-weaken _ (search keeps_rules depth 2) (λ h q. q))
