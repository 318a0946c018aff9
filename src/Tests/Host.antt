-- ===== src/Tests/Host.antt =====
-- Backups, restores and a resynchronisation on a machine with one folder of data.
use nomctl.Prelude.{
  ◌≡◌, ◌≢◌, refl, inl, true, false, none, some, [], ◌∷◌, ◌++◌, Text, bytes, text_eq, ok, arith,
  nat_eqb, drop, pos,
}
use nomctl.Prelude.Dict.{get, put, remove}
use nomctl.Host.{
  write_file, read_file, rename, remove_file, Entry, Host, World, remove_all, or_else, pure, raise,
  is_dir, ◌>>=◌,
}
use nomctl.Backup.{hash_path, trim_suffix, tar_gz, Config, Tools}
use nomctl.AlertProto.Sign.{hex_encode}
use nomctl.Backup.Archive.Done.{IsSealed, write_archive-IsSealed}
use nomctl.Backup.Archive.{write_archive, run, archive_at}
use nomctl.Backup.Archive.Sound.{IsSound}
use nomctl.Backup.Archive.RunSound.{run-IsSound}
use nomctl.Backup.Schedule.{unit_quote}
use nomctl.Backup.Schedule.Laws.{read_quoted, read_quoted-unit_quote}
use nomctl.Resync.{dirs, wipe, wipe_each, wipe_dir, resync}
use nomctl.Resync.Wiped.{resync-Holds}
use nomctl.Resync.Gone.{AreGone, wipe-AreGone}
use nomctl.Restore.{Places, home}
use nomctl.Restore.Inspect.{Archives, regular, inspect, walk, entry_path, cut}
use nomctl.Restore.Inspect.Paths.{IsClean, elements, resolve, resolved, join_path}
use nomctl.Restore.Inspect.Safe.{AreSafe, inspect_safe}
use nomctl.Restore.Run.{Source, restore}
use nomctl.Restore.Somewhere.{IsSomewhere, restore-IsSomewhere}

abbrev tree : Text → Entry
tree c = record { is_dir = true; content = c; mod_time = 5 }

abbrev file : Text → Entry
file c = record { is_dir = false; content = c; mod_time = 5 }

abbrev machine : Host
machine = record {
  files =
      (bytes "/znn/nom", tree (bytes "blocks"))
      ∷ (bytes "/znn/wallet", tree (bytes "keys"))
      ∷ (bytes "/b/znn_backup_1.tar.gz", file (bytes "n"))
      ∷ (bytes "/b/znn_backup_1.hash", file (bytes "6e\n"))
      ∷ [];
  running = (bytes "znn", true) ∷ [];
  calls = 0;
}

-- Every seventh call fails and leaves half of what it writes.
abbrev broken : World
broken = record { fails = λ n. nat_eqb n 7; torn = λ n. some (bytes "ha"); clock = λ n. n }

abbrev sound : World
sound = record { fails = λ n. false; torn = λ n. none; clock = λ n. n }

abbrev tools : Tools
tools = record {
  disk_free = λ p h. 9000;
  tar = λ es. bytes "n";
  sha256 = λ t. t;
  stamp = λ t. bytes "2";
}

abbrev config : Config
config = record {
  backup_dir = bytes "/b";
  znn_dir = bytes "/znn";
  service_name = bytes "znn";
  log_file = [];
  max_backups = pos 3;
  backup_cadence_days = pos 0;
  min_free_space_kb = 1000;
}

wipes : (wipe sound (bytes "/znn") machine).0 ≡ ok 1
unfolding wipe wipe_each wipe_dir remove_all is_dir or_else pure raise ◌>>=◌ get put remove
wipes = refl

wipe-AreGone_example : AreGone (bytes "/znn") dirs (wipe sound (bytes "/znn") machine).1
wipe-AreGone_example = wipe-AreGone sound (bytes "/znn") 1 machine wipes

resync-Holds_example :
    get (bytes "/znn/wallet") (resync broken (bytes "/znn") (bytes "znn") machine).1.files
    ≡ get (bytes "/znn/wallet") machine.files
resync-Holds_example =
    resync-Holds broken (bytes "/znn") (bytes "znn") (bytes "/znn/wallet") machine
      ((λ q. ground arith), ((λ q. ground arith), ((λ q. ground arith), ((λ q. ground arith), tt))))

read_quoted-unit_quote_example :
    read_quoted (unit_quote (bytes "a\"b\\") ++ b'"' ∷ bytes " x")
    ≡ some (bytes "a\"b\\", bytes " x")
read_quoted-unit_quote_example = read_quoted-unit_quote (bytes "a\"b\\") (bytes " x") refl

abbrev archives : Archives
archives = record {
  headers = λ t. (record { name = bytes "nom/../nom/./a"; kind = regular; size = 4 } ∷ [], none);
  clean = λ t. b'/' ∷ join_path (resolved (drop 1 t));
}

archives_clean : IsClean archives.clean
archives_clean = record { rooted = λ name. refl }

inspects :
    inspect archives (bytes "/b/znn_backup_1.tar.gz")
    ≡ ok (record { folders = bytes "nom" ∷ []; uncompressed = 4; files = 1 })
unfolding inspect walk entry_path cut elements resolve
inspects = refl

inspect_safe_example :
    AreSafe archives (archives.headers (bytes "/b/znn_backup_1.tar.gz")).0
    × ((archives.headers (bytes "/b/znn_backup_1.tar.gz")).1 ≡ none)
inspect_safe_example =
    inspect_safe archives (bytes "/b/znn_backup_1.tar.gz")
      (record { folders = bytes "nom" ∷ []; uncompressed = 4; files = 1 }) archives_clean inspects

abbrev source : Source
source = record { tree = λ a f. bytes "older"; trim_space = λ t. bytes "6e"; suffix = bytes "1" }

abbrev places : Places
places = record {
  backup_dir = bytes "/b";
  znn_dir = bytes "/znn";
  restore_dir = bytes "/b/restore";
  service_name = bytes "znn";
}

nom_there : get (home places (bytes "nom")) machine.files ≡ some (tree (bytes "blocks"))
unfolding get
nom_there = refl

restore-IsSomewhere_example :
    IsSomewhere places
      (bytes "nom")
      (tree (bytes "blocks"))
      (restore broken tools archives source places (bytes "/b/znn_backup_1.tar.gz") machine).1
restore-IsSomewhere_example =
    restore-IsSomewhere broken tools archives source places (bytes "nom")
      (bytes "/b/znn_backup_1.tar.gz") (tree (bytes "blocks")) machine (inl refl) refl nom_there

abbrev new_machine : Host
new_machine = record {
  files =
      (bytes "/znn/nom", tree (bytes "blocks")) ∷ (bytes "/znn/wallet", tree (bytes "keys")) ∷ [];
  running = (bytes "znn", true) ∷ [];
  calls = 0;
}

only_trees : (q : Text) (e : Entry) → get q new_machine.files ≡ some e → e.is_dir ≢ false
unfolding get
only_trees q e there = ground arith

run-IsSound_example : IsSound tools (run broken tools config false new_machine).1.files
run-IsSound_example =
    run-IsSound broken tools config false new_machine
      (λ base e s there regular. absurd (only_trees (base ++ tar_gz) e there regular))
      (λ n e there. only_trees (archive_at broken tools config n) e there)

writes :
    (write_archive sound tools (bytes "/b/temp") (bytes "/b/znn_backup_2" ++ tar_gz) new_machine).0
    ≡ ok tt
unfolding write_archive hash_path trim_suffix write_file read_file rename remove_file or_else pure
    raise ◌>>=◌ get put remove hex_encode
writes = refl

write_archive-IsSealed_example :
    IsSealed sound tools
      (bytes "/b/znn_backup_2")
      (write_archive sound tools
        (bytes "/b/temp")
        (bytes "/b/znn_backup_2" ++ tar_gz)
        new_machine).1
write_archive-IsSealed_example =
    write_archive-IsSealed sound tools (bytes "/b/temp") (bytes "/b/znn_backup_2") new_machine
      writes
