-- ===== src/Restore/Run.antt =====
-- The whole restore of internal/restore/restore.go: `Run`. The extraction writes each folder's tree, which
-- is a parameter; the name of the staging directory is that of `os.MkdirTemp`.
use nomctl.Prelude.{List, [], ◌∷◌, ◌++◌, Text, bytes, text_eq, Result, ok, err, map, ◌/◌}
use nomctl.Time.{Time, second}
use nomctl.Host.{World, Act, ◌>>=◌, ◌>>◌, pure, raise, ignore, make_dirs}
use nomctl.Host.Trees.{join_path, get_time, write_tree}
use nomctl.Service.{stop}
use nomctl.Backup.{Tools, remove_each}
use nomctl.Restore.{Places, verify, swap}
use nomctl.Restore.Inspect.{Archives, Manifest, inspect}

-- The tree of a folder in an archive, `strings.TrimSpace`, and the end of the staging directory's name.
pub record Source : Type 0 where
  pub tree : Text → Text → Text
  pub trim_space : Text → Text
  pub suffix : Text

abbrev pub staging_of : Places → Source → Text
staging_of at source = join_path at.znn_dir (bytes ".restore-" ++ source.suffix)

abbrev pub lift : {A : Type 0} → Result Text A → Act A
lift (ok a) = pure a
lift (err e) = raise e

-- A deferred action: its error is not looked at.
unfoldable pub finally : Act Unit → Act Unit → Act Unit
finally m last h = let (r, g) = m h in (r, (last g).1)

module _ (world : World) (tools : Tools) (archives : Archives) (source : Source) (at : Places) where
  unfoldable pub extract_each : Text → List Text → Act Unit
  extract_each archive [] = pure tt
  extract_each archive (folder ∷ fs) =
      write_tree world (join_path (staging_of at source) folder) (source.tree archive folder)
      >> extract_each archive fs

  abbrev pub clean_up : List Text → Act Unit
  clean_up fs = ignore (remove_each world (map (join_path (staging_of at source)) fs))

  abbrev pub exchange : Text → Time → List Text → Act Unit
  exchange archive now fs = do
    extract_each archive fs
    stop world at.service_name
    swap world at (staging_of at source) (now / second) fs

  -- What follows the inspection.
  abbrev pub proceed : Text → Manifest → Act Unit
  proceed archive manifest = do
    make_dirs world at.znn_dir
    now ← get_time world
    make_dirs world (staging_of at source)
    finally (exchange archive now manifest.folders) (clean_up manifest.folders)

  unfoldable pub restore : Text → Act Unit
  restore archive = do
    make_dirs world at.restore_dir
    verify world tools source.trim_space archive
    manifest ← lift (inspect archives archive)
    proceed archive manifest
