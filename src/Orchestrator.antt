-- ===== src/Orchestrator.antt =====
-- The hard reset of internal/orchestrator/orchestrator.go: `ValidateDir` and `HardReset`. The cleaning of a
-- path is a parameter, and the wait is left out. A query of a path that fails for another reason than
-- that it is not there is not modelled.
pub mod Reset
use nomctl.Prelude.{
  Bool, true, false, not, Option, none, some, List, [], ◌∷◌, ◌++◌, Text, bytes, text_eq, ◌==◌,
  Result, ok, err, starts_with, if◌then◌else◌,
}
use nomctl.Host.{World, Act, ◌>>=◌, ◌>>◌, pure, raise, or_else, attempt, exists, remove_all}
use nomctl.Host.Trees.{join_path}
use nomctl.Service.{service_exists, start, stop}
use nomctl.Resync.{join_errors}

abbrev pub reset_dirs : List Text
reset_dirs = bytes "queues" ∷ bytes "events" ∷ []

abbrev bad_dir : Text → Text
bad_dir dir =
    bytes "NOMCTL_ORCHESTRATOR_DIR must be an absolute path other than / (got " ++ dir ++ bytes ")"

-- What the check of the directory takes from the libraries: `strings.TrimSpace` and `filepath.Clean`.
pub record Paths : Type 0 where
  pub trim_space : Text → Text
  pub clean : Text → Text

unfoldable pub validate_dir : Paths → Text → Result Text Text
validate_dir paths text =
    let dir = paths.trim_space text in
    if not (starts_with (bytes "/") dir)
    then err (bad_dir dir)
    else if paths.clean dir == bytes "/"
    then err (bad_dir dir)
    else ok (paths.clean dir)

abbrev pub lift_dir : Result Text Text → Act Text
lift_dir (ok dir) = pure dir
lift_dir (err e) = raise e

module _ (world : World) where
  abbrev add_failure : Text → Option Text → List Text → List Text
  add_failure target none errs = errs
  add_failure target (some e) errs = errs ++ (bytes "delete " ++ target ++ bytes ": " ++ e) ∷ []

  abbrev pub delete_dir : Text → List Text → Bool → Act (List Text)
  delete_dir target errs false = pure errs
  delete_dir target errs true = do
    r ← attempt (remove_all world target)
    pure (add_failure target r errs)

  -- The loop of `HardReset` goes on after a failure.
  unfoldable pub delete_each : Text → List Text → List Text → Act (List Text)
  delete_each dir [] errs = pure errs
  delete_each dir (d ∷ ds) errs =
      (exists (join_path dir d) >>= delete_dir (join_path dir d) errs) >>= delete_each dir ds

  -- It is started again even where something could not be deleted.
  abbrev pub start_again : Text → List Text → Act Unit
  start_again name [] = start world name
  start_again name (e ∷ es) =
      or_else (start world name) (λ s.
        raise (join_errors (e ∷ es) ++ bytes "; and " ++ name ++ bytes " did not start: " ++ s))
      >> raise (join_errors (e ∷ es) ++ bytes " (" ++ name ++ bytes " was started again)")

  abbrev pub reset_known : Text → Text → Act Unit
  reset_known dir name = do
    stop world name
    errs ← delete_each dir reset_dirs []
    start_again name errs

  abbrev pub reset_installed : Text → Text → Act Unit
  reset_installed name dir = do
    there ← service_exists world name
    if there
        then reset_known dir name
        else raise (bytes "the orchestrator service is not installed on this node")

  unfoldable pub hard_reset : Paths → Text → Text → Act Unit
  hard_reset paths text name = lift_dir (validate_dir paths text) >>= reset_installed name
