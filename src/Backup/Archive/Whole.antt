-- ===== src/Backup/Archive/Whole.antt =====
-- The steps of `Run` of internal/backup/backup.go besides `writeArchive`.
use nomctl.Prelude.{Bool, true, false, List, [], ◌∷◌, Text, text_eq, arith}
use nomctl.Prelude.Dict.{Dict, dict_laws}
use nomctl.Host.{
  Entry, Host, World, ◌>>=◌, ignore, is_dir, remove_file, remove_all, make_dirs, set_service,
}
use nomctl.Host.Keeps.{Keeps, Keeps-bind, keeps_rules}
use nomctl.Host.Trees.{join_path, query, get_time, copy_tree, write_tree}
use nomctl.Service.{status, start, stop, service_exists}
use nomctl.Backup.{
  Config, Tools, Info, prune_all, prune, remove_each, clear_dir, copy_each, copy_folder, hash_path,
}
use nomctl.Backup.Archive.{ensure_free_space, snapshot}
use nomctl.Backup.Archive.Sound.{NoNewFile}

module _ (world : World) (f : Dict Text Entry) where
  abbrev pub Old : Host → Type 0
  Old h = NoNewFile f h.files

  pub Old-remove_file : (p : Text) → Keeps Old (remove_file world p)
  unfolding remove_file
  Old-remove_file p = record {
    at = λ h old q e there regular. old q e (grind (arith, dict_laws)) regular;
  }

  pub Old-remove_all : (p : Text) → Keeps Old (remove_all world p)
  unfolding remove_all
  Old-remove_all p = record {
    at = λ h old q e there regular. old q e (grind (arith, dict_laws)) regular;
  }

  pub Old-write_tree : (p c : Text) → Keeps Old (write_tree world p c)
  unfolding write_tree
  Old-write_tree p c = record {
    at = λ h old q e there regular. old q e (grind (arith, dict_laws)) regular;
  }

  pub Old-copy_tree : (from to : Text) → Keeps Old (copy_tree world from to)
  unfolding copy_tree write_tree
  Old-copy_tree from to = record {
    at = λ h old q e there regular. old q e (grind (arith, dict_laws)) regular;
  }

  pub Old-query : {A : Type 0} (e : Text) (answer : Host → A) → Keeps Old (query world e answer)
  unfolding query
  Old-query e answer = record { at = λ h old q x there regular. old q x (ground arith) regular }

  pub Old-get_time : Keeps Old (get_time world)
  unfolding get_time
  Old-get_time = record { at = λ h old. old }

  pub Old-make_dirs : (p : Text) → Keeps Old (make_dirs world p)
  unfolding make_dirs
  Old-make_dirs p = record { at = λ h old. old }

  pub Old-set_service : (on : Bool) (name : Text) → Keeps Old (set_service world on name)
  unfolding set_service
  Old-set_service on name = record {
    at = λ h old q x there regular. old q x (ground arith) regular;
  }

pub ruleset old_rules = (
  Old-remove_file, Old-remove_all, Old-write_tree, Old-copy_tree, Old-query, Old-get_time,
  Old-make_dirs, Old-set_service,
)

module _ (world : World) (f : Dict Text Entry) where
  Old-prune_all : (infos : List Info) → Keeps (Old world f) (prune_all world infos)
  unfolding prune_all
  Old-prune_all [] = search keeps_rules depth 2
  Old-prune_all (i ∷ is) =
      Keeps-bind _ _
        (Keeps-bind (ignore (remove_file world i.path))
          (λ _. ignore (remove_file world (hash_path i.path)))
          (search (keeps_rules, old_rules) depth 6) (λ _. search (keeps_rules, old_rules) depth 6))
        (λ _. Old-prune_all is)

  pub Old-prune : (cfg : Config) → Keeps (Old world f) (prune world cfg)
  unfolding prune
  Old-prune cfg = record { at = λ h old. (Old-prune_all _).at h old }

  Old-remove_each : (ps : List Text) → Keeps (Old world f) (remove_each world ps)
  unfolding remove_each
  Old-remove_each [] = search keeps_rules depth 2
  Old-remove_each (p ∷ ps) =
      Keeps-bind (remove_all world p) (λ _. remove_each world ps) (search old_rules depth 3)
        (λ _. Old-remove_each ps)

  pub Old-clear_dir : (dir : Text) → Keeps (Old world f) (clear_dir world dir)
  unfolding clear_dir
  Old-clear_dir dir = search (keeps_rules, old_rules, Old-remove_each) depth 8

  Old-copy_folder :
      (src dst folder : Text) (there : Bool)
      → Keeps (Old world f) (copy_folder world src dst folder there)
  Old-copy_folder src dst folder false = search keeps_rules depth 2
  Old-copy_folder src dst folder true = search (keeps_rules, old_rules) depth 6

  Old-copy_each :
      (cfg : Config) (dst : Text) (fs : List Text)
      → Keeps (Old world f) (copy_each world cfg dst fs)
  unfolding copy_each
  Old-copy_each cfg dst [] = search keeps_rules depth 2
  Old-copy_each cfg dst (x ∷ fs) =
      Keeps-bind
        (is_dir (join_path cfg.znn_dir x) >>= copy_folder world (join_path cfg.znn_dir x) dst x)
        (λ _. copy_each world cfg dst fs) (search (keeps_rules, Old-copy_folder) depth 6)
        (λ _. Old-copy_each cfg dst fs)

  Old-status : (name : Text) → Keeps (Old world f) (status world name)
  unfolding status
  Old-status name = search (keeps_rules, old_rules) depth 6

  Old-start : (name : Text) → Keeps (Old world f) (start world name)
  unfolding start service_exists
  Old-start name = search (keeps_rules, old_rules, Old-status) depth 12

  Old-stop : (name : Text) → Keeps (Old world f) (stop world name)
  unfolding stop
  Old-stop name = search (keeps_rules, old_rules, Old-status) depth 12

  pub Old-snapshot : (tools : Tools) (cfg : Config) → Keeps (Old world f) (snapshot world tools cfg)
  unfolding snapshot
  Old-snapshot tools cfg =
      search (keeps_rules, old_rules, Old-status, Old-start, Old-stop, Old-copy_each) depth 14

  pub Old-ensure_free_space :
      (tools : Tools) (cfg : Config) → Keeps (Old world f) (ensure_free_space world tools cfg)
  unfolding ensure_free_space
  Old-ensure_free_space tools cfg = search (keeps_rules, old_rules, Old-prune) depth 14
