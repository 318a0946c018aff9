-- ===== src/Backup/Archive.antt =====
-- The archive and the run of internal/backup/backup.go: `writeArchive`, `ensureFreeSpace`, `Run`.
pub mod Sound
pub mod Write
pub mod Safe
pub mod Whole
pub mod RunSound
pub mod Done
use nomctl.Prelude.{
  Bool, true, false, not, ◌||◌, [], ◌∷◌, ◌++◌, Text, bytes, text_eq, Result, ok, err, format_nat,
  ltb, leb, if◌then◌else◌, ◌/◌, keep, List, Option, none, some, ℕ, ◌&&◌,
}
use nomctl.Prelude.Dict.{Dict, get}
use nomctl.Time.{Time}
use nomctl.AlertProto.Sign.{hex_encode}
use nomctl.Host.{
  Entry, Host, World, Act, ◌>>=◌, ◌>>◌, pure, raise, or_else, ignore, is_dir, rename, write_file,
  remove_file, read_file, make_dirs,
}
use nomctl.Host.Trees.{join_path, entries_in, query, get_time}
use nomctl.Service.{State, is_active, status, start, stop}
use nomctl.Backup.{
  Config, Tools, temp_dir, restore_dir, archive_of, tar_gz, hash_path, list_backups, is_too_recent,
  prune, clear_dir, copy_data,
}

abbrev pub partial_of : Text → Text
partial_of archive = archive ++ bytes ".partial"

abbrev pub under : List Text → Dict Text Entry → Dict Text Entry
under [] files = []
under (p ∷ ps) files = elim (get p files) [
  | none ↦ under ps files
  | some e ↦ (p, e) ∷ under ps files
]

module _ (world : World) (tools : Tools) where
  abbrev pub drop_partial : {A : Type 0} → Text → Text → Act A
  drop_partial archive e = ignore (remove_file world (partial_of archive)) >> raise e

  -- `SHA256File`
  abbrev pub sha256_file : Text → Act Text
  sha256_file p = read_file world p >>= λ c. pure (hex_encode (tools.sha256 c))

  abbrev pub pack : Text → Text → Act Unit
  pack dir partial h =
      write_file world partial (tools.tar (under (entries_in dir h.files) h.files)) h

  abbrev pub digest_partial : Text → Act Text
  digest_partial archive = or_else (sha256_file (partial_of archive)) (drop_partial archive)

  abbrev pub drop_both : Text → Text → Act Unit
  drop_both archive e =
      ignore (remove_file world (partial_of archive))
      >> ignore (remove_file world (hash_path archive))
      >> raise e

  unfoldable pub write_archive : Text → Text → Act Unit
  write_archive dir archive = do
    or_else (pack dir (partial_of archive)) (drop_partial archive)
    sum ← digest_partial archive
    or_else (write_file world (hash_path archive) (sum ++ bytes "\n")) (drop_partial archive)
    or_else (rename world (partial_of archive) archive) (drop_both archive)

  abbrev free_space : Config → Act ℕ
  free_space cfg = query world (bytes "check disk space") (tools.disk_free cfg.backup_dir)

  abbrev check_again : Config → Act Unit
  check_again cfg = do
    prune world cfg
    avail ← free_space cfg
    if ltb avail cfg.min_free_space_kb
        then raise (
            bytes "insufficient disk space even after cleanup: "
            ++ format_nat (avail / 1024)
            ++ bytes " MB available")
        else pure tt

  unfoldable pub ensure_free_space : Config → Act Unit
  ensure_free_space cfg = do
    avail ← free_space cfg
    if leb cfg.min_free_space_kb avail then pure tt else check_again cfg

  -- The node is started again when the copy fails.
  abbrev restart : Config → State → Text → Act Unit
  restart cfg st e =
      (if is_active st then ignore (start world cfg.service_name) else pure tt) >> raise e

  unfoldable pub snapshot : Config → Act Unit
  snapshot cfg = do
    st ← status world cfg.service_name
    stop world cfg.service_name
    or_else (copy_data world cfg (temp_dir cfg)) (restart cfg st)
    start world cfg.service_name

  abbrev pub archive_at : Config → Time → Text
  archive_at cfg now =
      join_path cfg.backup_dir (archive_of cfg.service_name (tools.stamp now)) ++ tar_gz

  unfoldable pub finish : Config → Time → Act Text
  finish cfg now = do
    write_archive (temp_dir cfg) (archive_at cfg now)
    clear_dir world (temp_dir cfg)
    prune world cfg
    pure (archive_at cfg now)

  unfoldable pub back_up : Config → Act Text
  back_up cfg = do
    ensure_free_space cfg
    there ← is_dir cfg.znn_dir
    if there then pure tt else raise (bytes "cannot access " ++ cfg.znn_dir)
    clear_dir world (temp_dir cfg)
    snapshot cfg
    now ← get_time world
    finish cfg now

  abbrev pub skip : Config → Bool → Time → Act Bool
  skip cfg interactive now h =
      (ok (not interactive && is_too_recent (list_backups cfg h) now cfg.backup_cadence_days), h)

  -- `Run`; the empty path where the backup is skipped.
  unfoldable pub run : Config → Bool → Act Text
  run cfg interactive = do
    make_dirs world cfg.backup_dir
    make_dirs world (temp_dir cfg)
    make_dirs world (restore_dir cfg)
    now ← get_time world
    too_recent ← skip cfg interactive now
    if too_recent then pure [] else back_up cfg
