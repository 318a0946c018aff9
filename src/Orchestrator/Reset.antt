-- ===== src/Orchestrator/Reset.antt =====
-- What a hard reset leaves.
use nomctl.Prelude.{
  ◌≡◌, ◌≢◌, refl, Bool, true, false, Option, List, [], ◌∷◌, Text, text_eq, Result, ok, err,
}
use nomctl.Prelude.Dict.{get}
use nomctl.Host.{Entry, Host, World, ◌>>=◌, pure, raise}
use nomctl.Host.Keeps.{Keeps, Keeps-bind, keeps_rules}
use nomctl.Host.Files.{Holds, holds_rules}
use nomctl.Host.Trees.{trees_rules}
use nomctl.Service.Keeps.{Holds-service_exists, service_rules}
use nomctl.Resync.Wiped.{IsApart}
use nomctl.Orchestrator.{
  Paths, reset_dirs, validate_dir, lift_dir, delete_dir, delete_each, start_again, reset_installed,
  hard_reset,
}

module _ (world : World) (q : Text) (o : Option Entry) where
  Holds-delete_dir :
      (target : Text) (errs : List Text) (there : Bool)
      → target ≢ q
      → Keeps (Holds q o) (delete_dir world target errs there)
  Holds-delete_dir target errs false ne = search keeps_rules depth 2
  Holds-delete_dir target errs true ne = search (keeps_rules, holds_rules) depth 8

  Holds-delete_each :
      (dir : Text) (ds errs : List Text)
      → IsApart dir q ds
      → Keeps (Holds q o) (delete_each world dir ds errs)
  unfolding delete_each
  Holds-delete_each dir [] errs apart = search keeps_rules depth 2
  Holds-delete_each dir (d ∷ ds) errs (ne, apart) =
      Keeps-bind _ _ (search (keeps_rules, Holds-delete_dir, ne) depth 6)
        (λ errs'. Holds-delete_each dir ds errs' apart)

  Holds-start_again :
      (name : Text) (errs : List Text) → Keeps (Holds q o) (start_again world name errs)
  Holds-start_again name [] = search service_rules depth 3
  Holds-start_again name (e ∷ es) = search (keeps_rules, service_rules) depth 8

  Holds-reset_installed :
      (name dir : Text)
      → IsApart dir q reset_dirs
      → Keeps (Holds q o) (reset_installed world name dir)
  Holds-reset_installed name dir apart =
      search
        (
          keeps_rules,
          holds_rules,
          service_rules,
          trees_rules,
          Holds-service_exists world q o,
          Holds-delete_each,
          Holds-start_again,
          apart,
        )
        depth 10

  Holds-lift_dir :
      (name : Text) (r : Result Text Text)
      → ((dir : Text) → r ≡ ok dir → IsApart dir q reset_dirs)
      → Keeps (Holds q o) (lift_dir r >>= reset_installed world name)
  unfolding ◌>>=◌ pure raise
  Holds-lift_dir name (ok dir) apart = record {
    at = (Holds-reset_installed name dir (apart dir refl)).at;
  }
  Holds-lift_dir name (err e) apart = record { at = λ h x. x }

-- A hard reset, whatever fails in it, changes no entry but the queues and the events of the directory that
-- was accepted; where no directory is accepted it changes none.
pub hard_reset-Holds :
    (world : World) (paths : Paths) (text name q : Text) (h : Host)
    → ((dir : Text) → validate_dir paths text ≡ ok dir → IsApart dir q reset_dirs)
    → get q (hard_reset world paths text name h).1.files ≡ get q h.files
unfolding hard_reset
hard_reset-Holds world paths text name q h apart =
    (Holds-lift_dir world q (get q h.files) name (validate_dir paths text) apart).at h refl
