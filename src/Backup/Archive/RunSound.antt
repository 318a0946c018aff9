-- ===== src/Backup/Archive/RunSound.antt =====
-- `Run` of internal/backup/backup.go, with its archives and their hash files.
use nomctl.Prelude.{Bool, true, false, ℕ, [], Text, text_eq, if◌then◌else◌}
use nomctl.Prelude.Dict.{Dict}
use nomctl.Time.{Time}
use nomctl.Host.{Entry, Host, World, Act, ◌>>=◌, pure}
use nomctl.Host.Keeps.{Keeps, keeps_rules}
use nomctl.Host.Leads.{Leads, Leads-bind}
use nomctl.Host.Trees.{join_path, get_time}
use nomctl.Backup.{Config, Tools, archive_of, temp_dir, restore_dir}
use nomctl.Backup.Archive.{write_archive, finish, back_up, run, skip, archive_at}
use nomctl.Backup.Archive.Sound.{IsSound, IsNoFile, NoNewFile, IsSound-NoNewFile}
use nomctl.Backup.Archive.Safe.{write_archive-IsSound}
use nomctl.Backup.Archive.Whole.{
  Old, Old-make_dirs, Old-get_time, Old-prune, Old-clear_dir, Old-snapshot, Old-ensure_free_space,
}

module _ (world : World) (tools : Tools) (cfg : Config) where
  -- Every archive has its own digest, and no file has the name of an archive of this run.
  abbrev IsFresh : Host → Type 0
  IsFresh h =
      IsSound tools h.files
      × ((n : ℕ) → IsNoFile (archive_at world tools cfg (world.clock n)) h.files)

  abbrev SoundHost : Host → Type 0
  SoundHost h = IsSound tools h.files

  -- What makes no file keeps both.
  module _ {A : Type 0} where
    Fresh-Old :
        (m : Act A) → ((f : Dict Text Entry) → Keeps (Old world f) m) → Leads IsFresh IsFresh m
    Fresh-Old m old = record {
      at = λ h (sound, fresh).
          let older : NoNewFile h.files (m h).1.files =
            (old h.files).at h (λ q e there regular. there) in
          (
            IsSound-NoNewFile tools h.files (m h).1.files older sound,
            (λ n e there regular.
                fresh n e (older (archive_at world tools cfg (world.clock n)) e there regular)
                  regular),
          );
    }

    Sound-Old :
        (m : Act A) → ((f : Dict Text Entry) → Keeps (Old world f) m) → Leads SoundHost SoundHost m
    Sound-Old m old = record {
      at = λ h sound.
          IsSound-NoNewFile tools h.files (m h).1.files
            ((old h.files).at h (λ q e there regular. there)) sound;
    }

  same_files : (h : Host) → SoundHost h → SoundHost h
  same_files h sound = sound

  written :
      (n : ℕ)
      → Leads IsFresh SoundHost
          (write_archive world tools (temp_dir cfg) (archive_at world tools cfg (world.clock n)))
  written n = record {
    at = λ h (sound, fresh).
        write_archive-IsSound world tools (temp_dir cfg)
          (join_path cfg.backup_dir (archive_of cfg.service_name (tools.stamp (world.clock n)))) h
          (fresh n) sound;
  }

  Leads-finish : (n : ℕ) → Leads IsFresh SoundHost (finish world tools cfg (world.clock n))
  unfolding finish
  Leads-finish n = Leads-bind _ _ (written n) same_files (λ _.
      Leads-bind _ _ (Sound-Old _ (λ f. Old-clear_dir world f (temp_dir cfg))) same_files (λ _.
        Leads-bind _ _ (Sound-Old _ (λ f. Old-prune world f cfg)) same_files
          (λ _. Sound-Old _ (λ f. search keeps_rules depth 2))))

  fresh_sound : (h : Host) → IsFresh h → SoundHost h
  fresh_sound h fresh = fresh.0

  Leads-get_time :
      {A : Type 0} (f : Time → Act A)
      → ((n : ℕ) → Leads IsFresh SoundHost (f (world.clock n)))
      → Leads IsFresh SoundHost (get_time world >>= f)
  unfolding get_time ◌>>=◌
  Leads-get_time f later = record { at = λ h fresh. (later h.calls).at h fresh }

  Leads-back_up : Leads IsFresh SoundHost (back_up world tools cfg)
  unfolding back_up
  Leads-back_up =
      Leads-bind _ _ (Fresh-Old _ (λ f. Old-ensure_free_space world f tools cfg)) fresh_sound (λ _.
        Leads-bind _ _ (Fresh-Old _ (λ f. search keeps_rules depth 2)) fresh_sound (λ there.
          Leads-bind _ _ (Fresh-Old _ (λ f. search keeps_rules depth 4)) fresh_sound (λ _.
            Leads-bind _ _ (Fresh-Old _ (λ f. Old-clear_dir world f (temp_dir cfg))) fresh_sound
              (λ _.
                Leads-bind _ _ (Fresh-Old _ (λ f. Old-snapshot world f tools cfg)) fresh_sound
                  (λ _. Leads-get_time (finish world tools cfg) Leads-finish)))))

  Leads-if :
      {A : Type 0} (b : Bool) (m n : Act A)
      → Leads IsFresh SoundHost m
      → Leads IsFresh SoundHost n
      → Leads IsFresh SoundHost (if b then m else n)
  Leads-if true m n p q = p
  Leads-if false m n p q = q

  Old-skip :
      (interactive : Bool) (now : Time) (f : Dict Text Entry)
      → Keeps (Old world f) (skip world tools cfg interactive now)
  Old-skip interactive now f = record { at = λ h old. old }

  Leads-nothing : Leads IsFresh SoundHost (pure {A = Text} [])
  unfolding pure
  Leads-nothing = record { at = λ h fresh. fresh.0 }

  Leads-run : (interactive : Bool) → Leads IsFresh SoundHost (run world tools cfg interactive)
  unfolding run
  Leads-run interactive =
      Leads-bind _ _ (Fresh-Old _ (λ f. Old-make_dirs world f cfg.backup_dir)) fresh_sound (λ _.
        Leads-bind _ _ (Fresh-Old _ (λ f. Old-make_dirs world f (temp_dir cfg))) fresh_sound (λ _.
          Leads-bind _ _ (Fresh-Old _ (λ f. Old-make_dirs world f (restore_dir cfg))) fresh_sound
            (λ _. Leads-bind _ _ (Fresh-Old _ (λ f. Old-get_time world f)) fresh_sound (λ now.
              Leads-bind _ _ (Fresh-Old _ (Old-skip interactive now)) fresh_sound
                (λ too_recent. Leads-if too_recent _ _ Leads-nothing Leads-back_up)))))

-- A backup run, interactive or not and whatever fails on the way, leaves each archive that has a hash
-- file with its own digest in it, where that held before and no file had the name of an archive of a
-- time of this run.
pub run-IsSound :
    (world : World) (tools : Tools) (cfg : Config) (interactive : Bool) (h : Host)
    → IsSound tools h.files
    → ((n : ℕ) → IsNoFile (archive_at world tools cfg (world.clock n)) h.files)
    → IsSound tools (run world tools cfg interactive h).1.files
run-IsSound world tools cfg interactive h sound fresh =
    (Leads-run world tools cfg interactive).at h (sound, fresh)
