-- ===== src/Restore/Somewhere.antt =====
-- `Run` of internal/restore/restore.go, and where a folder of the data is after it.
use nomctl.Prelude.{
  ℕ, ◌≡◌, ◌≢◌, ◌⊎◌, inl, inr, true, some, List, [], ◌∷◌, Text, text_eq, ◌/◌, map, Result, ok, err,
}
use nomctl.Prelude.Dict.{get}
use nomctl.Time.{Time, second}
use nomctl.Host.{Entry, Host, World, Act, ◌>>=◌, pure, raise}
use nomctl.Host.Keeps.{Keeps, Keeps-bind, keeps_rules}
use nomctl.Host.Leads.{Leads, Leads-bind, Leads-weaken}
use nomctl.Host.Files.{Holds, Holds-remove_all, holds_rules}
use nomctl.Host.Trees.{join_path, Holds-write_tree, trees_rules}
use nomctl.Service.Keeps.{service_rules}
use nomctl.Backup.{Tools, remove_each}
use nomctl.Restore.{Places, home, aside, verify}
use nomctl.Restore.Inspect.{Archives, Manifest, inspect}
use nomctl.Restore.Folders.{IsFolder, staged_aside, staged_home}
use nomctl.Restore.Aside.{AreFolders}
use nomctl.Restore.Lossless.{HasFolders, inspect-HasFolders, Leads-swap}
use nomctl.Restore.Run.{
  Source, staging_of, lift, finally, extract_each, clean_up, exchange, proceed, restore,
}

-- The folder is at home, or its safety copy of some time is there.
abbrev pub IsSomewhere : Places → Text → Entry → Host → Type 0
IsSomewhere at f e h =
    (get (home at f) h.files ≡ some e) ⊎ ((stamp : ℕ) × (get (aside at stamp f) h.files ≡ some e))

module _ (world : World) (tools : Tools) (archives : Archives) (source : Source) (at : Places)
    (f : Text) (e : Entry) (is_folder : IsFolder f) (a_dir : e.is_dir ≡ true) where
  abbrev Here : Host → Type 0
  Here = Holds (home at f) (some e)

  abbrev Somewhere : Host → Type 0
  Somewhere = IsSomewhere at f e

  Holds-extract_each :
      (archive : Text) (fs : List Text)
      → Keeps Here (extract_each world tools archives source at archive fs)
  unfolding extract_each
  Holds-extract_each archive [] = search keeps_rules depth 2
  Holds-extract_each archive (g ∷ fs) =
      Keeps-bind _ _
        (Holds-write_tree world (home at f) (some e) (join_path (staging_of at source) g) _
          (staged_home at source.suffix g f is_folder))
        (λ u. Holds-extract_each archive fs)

  Holds-verify : (archive : Text) → Keeps Here (verify world tools source.trim_space archive)
  unfolding verify
  Holds-verify archive = search (keeps_rules, holds_rules) depth 14

  -- The staged folders are removed one by one; none is a folder at home or a safety copy.
  Holds-staged :
      (q : Text) (fs : List Text)
      → ((g : Text) → IsFolder g → join_path (staging_of at source) g ≢ q)
      → AreFolders fs
      → Keeps (Holds q (some e)) (remove_each world (map (join_path (staging_of at source)) fs))
  unfolding remove_each
  Holds-staged q [] ne are = search keeps_rules depth 2
  Holds-staged q (g ∷ fs) ne (g_is, are) =
      Keeps-bind _ _
        (Holds-remove_all world q (some e) (join_path (staging_of at source) g) (ne g g_is))
        (λ u. Holds-staged q fs ne are)

  Leads-clean_up :
      (fs : List Text)
      → AreFolders fs
      → Leads Somewhere Somewhere (clean_up world tools archives source at fs)
  Leads-clean_up fs are = record {
    at = λ h kept. elim kept [
      | inl here ↦
          (let staged =
              Holds-staged (home at f) fs (λ g g_is. staged_home at source.suffix g f is_folder)
                are in
            let k : Keeps Here (clean_up world tools archives source at fs) =
              search (keeps_rules, staged) depth 4 in
            inl (k.at h here))
      | inr (stamp, there) ↦
          (let staged =
              Holds-staged (aside at stamp f) fs
                (λ g g_is. staged_aside at stamp source.suffix g f g_is) are in
            let k : Keeps (Holds (aside at stamp f) (some e))
                (clean_up world tools archives source at fs) =
              search (keeps_rules, staged) depth 4 in
            inr (stamp, k.at h there))
    ];
  }

  Leads-exchange :
      (archive : Text) (now : Time) (fs : List Text)
      → AreFolders fs
      → Leads Here Somewhere (exchange world tools archives source at archive now fs)
  Leads-exchange archive now fs are =
      Leads-bind _ _ (Leads-weaken _ (Holds-extract_each archive fs) (λ h k. k)) (λ h k. inl k)
        (λ u.
          Leads-bind _ _ (Leads-weaken _ (search service_rules depth 3) (λ h k. k)) (λ h k. inl k)
            (λ u. record {
              at = λ h here.
                  elim ((Leads-swap world at (now / second) source.suffix f e is_folder a_dir fs
                      are).at
                    h here) [ inl k ↦ inl k | inr k ↦ inr (now / second, k) ];
            }))

  Leads-finally :
      (m last : Act Unit)
      → Leads Here Somewhere m
      → Leads Somewhere Somewhere last
      → Leads Here Somewhere (finally m last)
  unfolding finally
  Leads-finally m last first then_last = record {
    at = λ h here. then_last.at (m h).1 (first.at h here);
  }

  Leads-proceed :
      (archive : Text) (manifest : Manifest)
      → AreFolders manifest.folders
      → Leads Here Somewhere (proceed world tools archives source at archive manifest)
  Leads-proceed archive manifest are =
      Leads-bind _ _ (Leads-weaken _ (search holds_rules depth 3) (λ h k. k)) (λ h k. inl k)
        (λ u.
          Leads-bind _ _ (Leads-weaken _ (search trees_rules depth 3) (λ h k. k)) (λ h k. inl k)
            (λ now.
              Leads-bind _ _ (Leads-weaken _ (search holds_rules depth 3) (λ h k. k)) (λ h k. inl k)
                (λ u.
                  Leads-finally _ _ (Leads-exchange archive now manifest.folders are)
                    (Leads-clean_up manifest.folders are))))

  Leads-lift :
      (archive : Text) (r : Result Text Manifest)
      → HasFolders r
      → Leads Here Somewhere (lift r >>= proceed world tools archives source at archive)
  unfolding ◌>>=◌ pure raise
  Leads-lift archive (ok m) are = record { at = (Leads-proceed archive m are).at }
  Leads-lift archive (err x) are = record { at = λ h here. inl here }

  Leads-restore :
      (archive : Text) → Leads Here Somewhere (restore world tools archives source at archive)
  unfolding restore
  Leads-restore archive =
      Leads-bind _ _ (Leads-weaken _ (search holds_rules depth 3) (λ h k. k)) (λ h k. inl k)
        (λ u.
          Leads-bind _ _ (Leads-weaken _ (Holds-verify archive) (λ h k. k)) (λ h k. inl k)
            (λ u.
              Leads-lift archive (inspect archives archive) (inspect-HasFolders archives archive)))

-- A restore, whatever its archive holds and whatever fails on the way, leaves each of the four folders
-- that was there as a directory: the same entry is at home, or its safety copy is in the restore directory.
pub restore-IsSomewhere :
    (world : World) (tools : Tools) (archives : Archives) (source : Source) (at : Places)
    (f archive : Text) (e : Entry) (h : Host)
    → IsFolder f
    → e.is_dir ≡ true
    → get (home at f) h.files ≡ some e
    → IsSomewhere at f e (restore world tools archives source at archive h).1
restore-IsSomewhere world tools archives source at f archive e h is_folder a_dir here =
    (Leads-restore world tools archives source at f e is_folder a_dir archive).at h here
