-- ===== src/Resync/Wiped.antt =====
-- `Run` of internal/resync/resync.go, and the entries beside its directories.
use nomctl.Prelude.{ℕ, ◌≡◌, ◌≢◌, refl, Bool, true, false, Option, List, [], ◌∷◌, Text, text_eq}
use nomctl.Prelude.Dict.{get}
use nomctl.Host.{Entry, Host, World}
use nomctl.Host.Keeps.{Keeps, Keeps-bind, keeps_rules}
use nomctl.Host.Files.{Holds, holds_rules}
use nomctl.Host.Trees.{join_path}
use nomctl.Service.Keeps.{service_rules}
use nomctl.Resync.{
  Wiping, dirs, wipe_dir, wipe_each, wipe, resync, stop_active, start_active, outcome,
}

-- The path is none of the directories that a resynchronisation deletes.
abbrev pub IsApart : Text → Text → List Text → Type 0
IsApart data_dir q [] = Unit
IsApart data_dir q (d ∷ ds) = (join_path data_dir d ≢ q) × IsApart data_dir q ds

module _ (world : World) (data_dir q : Text) (o : Option Entry) where
  Holds-wipe_each :
      (ds : List Text) (w : Wiping)
      → IsApart data_dir q ds
      → Keeps (Holds q o) (wipe_each world data_dir ds w)
  unfolding wipe_each wipe_dir
  Holds-wipe_each [] w apart = search keeps_rules depth 2
  Holds-wipe_each (d ∷ ds) w (ne, apart) =
      Keeps-bind _ _ (search (keeps_rules, holds_rules) depth 12)
        (λ w'. Holds-wipe_each ds w' apart)

  Holds-outcome : (n : ℕ) (errs : List Text) → Keeps (Holds q o) (outcome world data_dir n errs)
  Holds-outcome n [] = search keeps_rules depth 2
  Holds-outcome n (e ∷ es) = search keeps_rules depth 2

  Holds-wipe : IsApart data_dir q dirs → Keeps (Holds q o) (wipe world data_dir)
  unfolding wipe
  Holds-wipe apart = search (keeps_rules, Holds-wipe_each, Holds-outcome) depth 6

  Holds-stop_active :
      (name : Text) (on : Bool) → Keeps (Holds q o) (stop_active world data_dir name on)
  Holds-stop_active name true = search (keeps_rules, service_rules) depth 6
  Holds-stop_active name false = search keeps_rules depth 2

  Holds-start_active :
      (name : Text) (on : Bool) → Keeps (Holds q o) (start_active world data_dir name on)
  Holds-start_active name true = search (keeps_rules, service_rules) depth 6
  Holds-start_active name false = search keeps_rules depth 2

  Holds-resync :
      (name : Text) → IsApart data_dir q dirs → Keeps (Holds q o) (resync world data_dir name)
  unfolding resync
  Holds-resync name apart =
      search (keeps_rules, service_rules, Holds-wipe, Holds-stop_active, Holds-start_active) depth
        12

-- A resynchronisation, whatever fails in it, leaves every entry but the four directories it deletes: the
-- wallet and the configuration among them.
pub resync-Holds :
    (world : World) (data_dir name q : Text) (h : Host)
    → IsApart data_dir q dirs
    → get q (resync world data_dir name h).1.files ≡ get q h.files
resync-Holds world data_dir name q h apart =
    (Holds-resync world data_dir q (get q h.files) name apart).at h refl
