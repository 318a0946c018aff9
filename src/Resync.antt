-- ===== src/Resync.antt =====
-- The resynchronisation of internal/resync/resync.go: `Wipe` and `Run`.
pub mod Wiped
pub mod Gone
use nomctl.Prelude.{
  ℕ, suc, Bool, true, false, Option, none, some, List, [], ◌∷◌, ◌++◌, Text, bytes, text_eq, ◌==◌,
  Result, ok, err, if◌then◌else◌,
}
use nomctl.Host.{Host, World, Act, ◌>>=◌, ◌>>◌, pure, raise, or_else, attempt, is_dir, remove_all}
use nomctl.Host.Trees.{join_path}
use nomctl.Service.{State, is_active, status, start, stop}

abbrev pub dirs : List Text
dirs = bytes "network" ∷ bytes "nom" ∷ bytes "consensus" ∷ bytes "log" ∷ []

-- `errors.Join`: the messages on lines of their own.
abbrev pub join_errors : List Text → Text
join_errors [] = []
join_errors (e ∷ []) = e
join_errors (e ∷ es) = e ++ b'\n' ∷ join_errors es

-- How many directories were deleted, and what failed.
pub record Wiping : Type 0 where
  pub deleted : ℕ
  pub errs : List Text

abbrev add_result : Text → Option Text → Wiping → Wiping
add_result target none w = record w { deleted = suc w.deleted }
add_result target (some e) w = record w {
  errs = w.errs ++ (bytes "failed to delete " ++ target ++ bytes ": " ++ e) ∷ [];
}

module _ (world : World) (data_dir : Text) where
  abbrev remove_dir : Wiping → Text → Act Wiping
  remove_dir w target = do r ← attempt (remove_all world target); pure (add_result target r w)

  unfoldable pub wipe_dir : Wiping → Text → Act Wiping
  wipe_dir w target = do there ← is_dir target; if there then remove_dir w target else pure w

  -- The loop of `Wipe` goes on after a failure.
  unfoldable pub wipe_each : List Text → Wiping → Act Wiping
  wipe_each [] w = pure w
  wipe_each (d ∷ ds) w = wipe_dir w (join_path data_dir d) >>= wipe_each ds

  abbrev outcome : ℕ → List Text → Act ℕ
  outcome n [] = pure n
  outcome n errs = raise (join_errors errs)

  unfoldable pub wipe : Act ℕ
  wipe = wipe_each dirs (record { deleted = 0; errs = [] }) >>= λ w. outcome w.deleted w.errs

  abbrev stop_active : Text → Bool → Act Unit
  stop_active name false = pure tt
  stop_active name true =
      or_else (stop world name)
        (λ e. raise (bytes "failed to stop " ++ name ++ bytes " service; aborting resync: " ++ e))

  abbrev start_active : Text → Bool → Act Unit
  start_active name false = pure tt
  start_active name true =
      or_else (start world name)
        (λ e. raise (bytes "failed to restart " ++ name ++ bytes " service after resync: " ++ e))

  unfoldable pub resync : Text → Act Unit
  resync name = do
    st ← status world name
    stop_active name (is_active st)
    deleted ← wipe
    start_active name (is_active st)
