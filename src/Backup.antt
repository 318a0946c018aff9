-- ===== src/Backup.antt =====
-- The backups of internal/backup/backup.go. The names of directories are clean paths without pattern
-- characters, so that `filepath.Glob` only looks for the prefix and the suffix of an archive's name.
pub mod Archive
pub mod Schedule
use nomctl.Prelude.{
  ℕ, suc, ◌-◌, ◌*◌, ◌/◌, Bool, true, false, not, ◌&&◌, ◌||◌, Option, none, some, List, [], ◌∷◌,
  ◌++◌, Text, bytes, text_eq, ◌==◌, Result, ok, err, ℤ, pos, negsuc, pos_part, any, keep, length,
  drop, starts_with, nat_eqb, ltb, leb, text_ltb, sort_by, format_nat, if◌then◌else◌,
}
use nomctl.Prelude.Dict.{Dict, get}
use nomctl.Time.{Time, hour}
use nomctl.AlertProto.Sign.{hex_encode}
use nomctl.Host.{
  Entry, Host, World, Act, ◌>>=◌, ◌>>◌, pure, raise, or_else, ignore, is_dir, is_there, rename,
  write_file, remove_file, remove_all, read_file, make_dirs,
}
use nomctl.Host.Trees.{join_path, base_name, entries_in, paths, query, get_time, copy_tree}
use nomctl.Service.{is_active, status, start, stop}

pub record Config : Type 0 where
  pub backup_dir : Text
  pub znn_dir : Text
  pub service_name : Text
  pub log_file : Text
  pub max_backups : ℤ
  pub backup_cadence_days : ℤ
  pub min_free_space_kb : ℕ

-- What a backup takes from the system and the libraries: the free space in kilobytes, the archive of a
-- directory's entries, the digest, and the time in an archive's name.
pub record Tools : Type 0 where
  pub disk_free : Text → Host → ℕ
  pub tar : Dict Text Entry → Text
  pub sha256 : Text → Text
  pub stamp : Time → Text

pub record Info : Type 0 where
  pub path : Text
  pub mod_time : Time

abbrev pub folders : List Text
folders = bytes "nom" ∷ bytes "network" ∷ bytes "consensus" ∷ bytes "cache" ∷ []

abbrev pub tar_gz : Text
tar_gz = bytes ".tar.gz"

-- `strings.TrimSuffix` for a suffix that is not empty.
unfoldable pub trim_suffix : Text → Text → Text
trim_suffix suffix [] = []
trim_suffix suffix (c ∷ s) =
    let rest = trim_suffix suffix s in if (c ∷ s) == suffix then [] else c ∷ rest

-- `strings.HasSuffix`
unfoldable pub ends_with : Text → Text → Bool
ends_with suffix [] = suffix == []
ends_with suffix (c ∷ s) = let rest = ends_with suffix s in (c ∷ s) == suffix || rest

abbrev pub temp_dir : Config → Text
temp_dir cfg = join_path cfg.backup_dir (bytes "temp")

abbrev pub restore_dir : Config → Text
restore_dir cfg = join_path cfg.backup_dir (bytes "restore")

abbrev pub archive_of : Text → Text → Text
archive_of service stamp = service ++ bytes "_backup_" ++ stamp

unfoldable pub hash_path : Text → Text
hash_path archive = trim_suffix tar_gz archive ++ bytes ".hash"

abbrev pattern_prefix : Config → Text
pattern_prefix cfg = join_path cfg.backup_dir (cfg.service_name ++ bytes "_backup_")

abbrev matches : Config → Text → Bool
matches cfg p =
    let rest = drop (length (pattern_prefix cfg)) p in
    starts_with (pattern_prefix cfg) p && ends_with tar_gz rest && not (any (nat_eqb b'/') rest)

abbrev after : Info → Info → Bool
after i j = ltb j.mod_time i.mod_time

-- `SortNewestFirst`. Insertion before the first element that is not newer is stable, since the
-- elements are inserted from the last to the first.
abbrev pub sort_newest_first : List Info → List Info
sort_newest_first infos = sort_by after infos

-- The loop of `List`: a regular file that has its hash file.
unfoldable pub collect : Dict Text Entry → List Text → List Info
collect files [] = []
collect files (p ∷ ps) =
    let rest = collect files ps in
    elim (get p files) [
      | none ↦ rest
      | some e ↦
          if e.is_dir || not (is_there (get (hash_path p) files))
          then rest
          else record { path = p; mod_time = e.mod_time } ∷ rest
    ]

unfoldable pub list_backups : Config → Host → List Info
list_backups cfg h =
    sort_newest_first (collect h.files (sort_by text_ltb (keep (matches cfg) (paths h.files))))

-- `SelectForPruning`: dropping no more than the list has gives nil in the other case too.
unfoldable pub select_for_pruning : List Info → ℤ → List Info
select_for_pruning infos keep = drop (pos_part keep) (sort_newest_first infos)

-- `CadenceReached` for a positive number of days; the hours are divided exactly.
abbrev pub cadence_reached : Time → Time → ℕ → Bool
cadence_reached last now days = leb days ((now - last) / (24 * hour))

-- Whether the newest backup is too recent.
unfoldable pub is_too_recent : List Info → Time → ℤ → Bool
is_too_recent (last ∷ infos) now (pos (suc d)) = not (cadence_reached last.mod_time now (suc d))
is_too_recent infos now days = false

module _ (world : World) where
  unfoldable pub prune_all : List Info → Act Unit
  prune_all [] = pure tt
  prune_all (old ∷ infos) =
      ignore (remove_file world old.path)
      >> ignore (remove_file world (hash_path old.path))
      >> prune_all infos

  unfoldable pub prune : Config → Act Unit
  prune cfg h = prune_all (select_for_pruning (list_backups cfg h) cfg.max_backups) h

  unfoldable pub remove_each : List Text → Act Unit
  remove_each [] = pure tt
  remove_each (p ∷ ps) = remove_all world p >> remove_each ps

  unfoldable pub clear_dir : Text → Act Unit
  clear_dir dir = do
    entries ← query world (bytes "cannot read " ++ dir) (λ h. entries_in dir h.files)
    remove_each entries

  -- `cp -a src dst/`
  abbrev pub copy_folder : Text → Text → Text → Bool → Act Unit
  copy_folder src dst folder false = pure tt
  copy_folder src dst folder true =
      or_else (copy_tree world src (join_path dst folder))
        (λ e. raise (bytes "failed to copy " ++ folder ++ bytes ": " ++ e))

  unfoldable pub copy_each : Config → Text → List Text → Act Unit
  copy_each cfg dst [] = pure tt
  copy_each cfg dst (folder ∷ fs) =
      (is_dir (join_path cfg.znn_dir folder)
        >>= copy_folder (join_path cfg.znn_dir folder) dst folder)
      >> copy_each cfg dst fs

  abbrev pub copy_data : Config → Text → Act Unit
  copy_data cfg dst = copy_each cfg dst folders
