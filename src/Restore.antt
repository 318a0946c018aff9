-- ===== src/Restore.antt =====
-- The restore of internal/restore/restore.go: `Resolve`, `Verify`, `MoveAside`, `MoveBack`, `Run`.
pub mod Inspect
pub mod Folders
pub mod Run
pub mod Aside
pub mod Back
pub mod Kept
pub mod Lossless
pub mod Somewhere
use nomctl.Prelude.{
  ℕ, suc, ◌/◌, ◌-◌, ℤ, pos, negsuc, format_int, leb, Bool, true, false, not, Option, none, some,
  List, [], ◌∷◌, ◌++◌, Text, bytes, text_eq, ◌==◌, Result, ok, err, any, nat_eqb, if◌then◌else◌,
}
use nomctl.Prelude.Dict.{Dict, get, put}
use nomctl.Time.{Time, second}
use nomctl.Host.{
  Host, World, Act, ◌>>=◌, ◌>>◌, pure, raise, or_else, ignore, attempt, exists, is_dir, rename,
  read_file, remove_all, make_dirs,
}
use nomctl.Host.Trees.{join_path, get_time, write_tree, move_tree}
use nomctl.Service.{start, stop}
use nomctl.Backup.{Tools, hash_path, ends_with, tar_gz}
use nomctl.Backup.Archive.{sha256_file}
use nomctl.AlertProto.Sign.{unix_epoch}
use nomctl.Resync.{join_errors}
use nomctl.Restore.Inspect.{Archives, inspect}

pub record Places : Type 0 where
  pub backup_dir : Text
  pub znn_dir : Text
  pub restore_dir : Text
  pub service_name : Text

unfoldable pub resolve : Places → Text → Text
resolve at arg =
    if any (nat_eqb b'/') arg
    then arg
    else join_path at.backup_dir (if ends_with tar_gz arg then arg else arg ++ tar_gz)

-- Where a folder lives, and where its safety copy goes.
abbrev pub home : Places → Text → Text
home at folder = join_path at.znn_dir folder

-- `now.Unix()`, of the seconds since the zero time.
abbrev pub unix_of : ℕ → ℤ
unix_of n = if leb unix_epoch n then pos (n - unix_epoch) else negsuc (unix_epoch - n - 1)

abbrev pub aside : Places → ℕ → Text → Text
aside at stamp folder =
    join_path at.restore_dir (folder ++ (bytes ".bak." ++ format_int (unix_of stamp)))

-- The folders moved so far with their new paths, and the error that ended the loop.
pub record Moving : Type 0 where
  pub moved : Dict Text Text
  pub error : Option Text

module _ (world : World) (tools : Tools) where
  abbrev check_hash : Text → Text → Text → Act Unit
  check_hash archive stored calculated =
      if calculated == stored
      then pure tt
      else raise (bytes "integrity check failed for " ++ archive)

  abbrev verify_hash : (Text → Text) → Text → Act Unit
  verify_hash trim_space archive = do
    stored ←
        or_else (read_file world (hash_path archive))
          (λ e. raise (bytes "hash file missing for " ++ archive))
    calculated ← sha256_file world tools archive
    check_hash archive (trim_space stored) calculated

  unfoldable pub verify : (Text → Text) → Text → Act Unit
  verify trim_space archive = do
    there ← exists archive
    if there
        then verify_hash trim_space archive
        else raise (bytes "backup file " ++ archive ++ bytes " not found")

module _ (world : World) (at : Places) where
  abbrev pub taken_text : ℕ → Text → Text
  taken_text stamp folder =
      aside at stamp folder ++ bytes " already exists; aborting before touching data"

  abbrev pub move_text : Text → Text → Text
  move_text folder e =
      bytes "failed to move " ++ folder ++ bytes " aside; aborting before touching data: " ++ e

  -- One folder of `MoveAside`: whether it was moved, or the error.
  abbrev move_one : ℕ → Text → Bool → Act (Option Text)
  move_one stamp folder true = pure (some (taken_text stamp folder))
  move_one stamp folder false =
      or_else (move_tree world (home at folder) (aside at stamp folder) >> pure none)
        (λ e. pure (some (move_text folder e)))

  unfoldable pub move_each : ℕ → List Text → Dict Text Text → Act Moving
  move_each stamp [] moved = pure (record { moved = moved; error = none })
  move_each stamp (folder ∷ fs) moved = do
    there ← is_dir (home at folder)
    if there
        then (exists (aside at stamp folder) >>= move_one stamp folder >>= λ r. elim r [
          | none ↦ move_each stamp fs (put folder (aside at stamp folder) moved)
          | some e ↦ pure (record { moved = moved; error = some e })
        ])
        else move_each stamp fs moved

  unfoldable pub move_aside : ℕ → List Text → Act Moving
  move_aside stamp fs =
      or_else (make_dirs world at.restore_dir >> move_each stamp fs [])
        (λ e. pure (record { moved = []; error = some e }))

  -- One folder of `MoveBack`: the destination is cleared first.
  abbrev put_back : Text → Text → Act Unit
  put_back folder src =
      or_else (move_tree world src (home at folder))
        (λ e. raise (bytes "put back " ++ folder ++ bytes " from " ++ src ++ bytes ": " ++ e))

  abbrev clear_first : Text → Bool → Act Unit
  clear_first folder false = pure tt
  clear_first folder true = or_else (remove_all world (home at folder)) (λ e.
      raise
        (bytes "clear " ++ home at folder ++ bytes " before putting the previous data back: " ++ e))

  abbrev back_one : Text → Text → Act Unit
  back_one folder src = exists (home at folder) >>= clear_first folder >>= λ _. put_back folder src

  abbrev pub add_error : Option Text → List Text → List Text
  add_error none errs = errs
  add_error (some e) errs = errs ++ e ∷ []

  -- `MoveBack` goes on after a failure. The order of a Go map is any; here it is that of the moves.
  unfoldable pub move_back : Dict Text Text → List Text → Act (List Text)
  move_back [] errs = pure errs
  move_back ((folder, src) ∷ moved) errs =
      attempt (back_one folder src) >>= λ r. move_back moved (add_error r errs)

  unfoldable pub install_each : Text → List Text → Act (Option Text)
  install_each staging [] = pure none
  install_each staging (folder ∷ fs) =
      attempt (rename world (join_path staging folder) (home at folder)) >>= λ r. elim r [
        | none ↦ install_each staging fs
        | some e ↦ pure (some (bytes "install " ++ folder ++ bytes ": " ++ e))
      ]

  abbrev install : Text → List Text → Moving → Act (Option Text)
  install staging fs m = elim m.error [ none ↦ install_each staging fs | some e ↦ pure (some e) ]

  abbrev restart : Text → Act Unit
  restart e =
      or_else (start world at.service_name)
        (λ s. raise (e ++ bytes "; previous data put back but the node did not start: " ++ s))
      >> raise (e ++ bytes "; previous data put back and the node restarted")

  abbrev after_back : Text → List Text → Act Unit
  after_back e [] = restart e
  after_back e errs = raise (
      e
      ++ bytes "; and the previous data could not all be put back: "
      ++ join_errors errs
      ++ bytes " (the node is stopped)")

  abbrev settle : Dict Text Text → Option Text → Act Unit
  settle moved none = start world at.service_name
  settle moved (some e) = move_back moved [] >>= after_back e

  -- `Run` after the node was stopped.
  unfoldable pub swap : Text → ℕ → List Text → Act Unit
  swap staging stamp fs = do m ← move_aside stamp fs; r ← install staging fs m; settle m.moved r
