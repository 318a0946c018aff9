-- ===== src/Host/Files.antt =====
-- One entry of the machine under the operations on files.
use nomctl.Prelude.{
  ◌≡◌, ◌≢◌, Bool, Option, some, Text, text_eq, eqb_ne, eqb_refl, ok, err, arith, Option-cases, inl,
  inr,
}
use nomctl.Prelude.Dict.{get, remove, get-put, dict_laws}
use nomctl.Host.{
  Entry, Host, World, rename, write_file, remove_file, remove_all, read_file, make_dirs,
  set_service,
}
use nomctl.Host.Keeps.{Keeps}

abbrev pub Holds : Text → Option Entry → Host → Type 0
Holds q o h = get q h.files ≡ o

module _ (world : World) (q : Text) (o : Option Entry) where
  pub Holds-rename : (from to : Text) → from ≢ q → to ≢ q → Keeps (Holds q o) (rename world from to)
  unfolding rename
  Holds-rename from to ne ne' = record {
    at = λ h x. grind (arith, dict_laws, eqb_ne from q ne, eqb_ne to q ne');
  }

  pub Holds-write_file : (p c : Text) → p ≢ q → Keeps (Holds q o) (write_file world p c)
  unfolding write_file
  Holds-write_file p c ne = record { at = λ h x. grind (arith, dict_laws, eqb_ne p q ne) }

  pub Holds-remove_file : (p : Text) → p ≢ q → Keeps (Holds q o) (remove_file world p)
  unfolding remove_file
  Holds-remove_file p ne = record { at = λ h x. grind (arith, dict_laws, eqb_ne p q ne) }

  pub Holds-remove_all : (p : Text) → p ≢ q → Keeps (Holds q o) (remove_all world p)
  unfolding remove_all
  Holds-remove_all p ne = record { at = λ h x. grind (arith, dict_laws, eqb_ne p q ne) }

  pub Holds-read_file : (p : Text) → Keeps (Holds q o) (read_file world p)
  unfolding read_file
  Holds-read_file p = record { at = λ h x. ground arith }

  pub Holds-make_dirs : (p : Text) → Keeps (Holds q o) (make_dirs world p)
  unfolding make_dirs
  Holds-make_dirs p = record { at = λ h x. ground arith }

  pub Holds-set_service : (on : Bool) (name : Text) → Keeps (Holds q o) (set_service world on name)
  unfolding set_service
  Holds-set_service on name = record { at = λ h x. ground arith }

pub ruleset holds_rules = (
  Holds-rename, Holds-write_file, Holds-remove_file, Holds-remove_all, Holds-read_file,
  Holds-make_dirs, Holds-set_service,
)

module _ (world : World) where
  -- A rename that fails leaves every file.
  pub rename_failed :
      (from to : Text) (h : Host) (e : Text)
      → (rename world from to h).0 ≡ err e
      → (rename world from to h).1.files ≡ h.files
  unfolding rename
  rename_failed from to h e x = ground arith

  -- A rename that succeeds moves the entry.
  pub rename_done :
      (from to : Text) (h : Host)
      → (rename world from to h).0 ≡ ok tt
      → (e : Entry) × (get from h.files ≡ some e)
        × (get to (rename world from to h).1.files ≡ some e)
  unfolding rename
  rename_done from to h x = elim (Option-cases (get from h.files)) [
    | inl gone ↦ absurd (ground arith)
    | inr (e, there) ↦
        (e, there, ground (arith, eqb_refl to, get-put to to e (remove from h.files)))
  ]
