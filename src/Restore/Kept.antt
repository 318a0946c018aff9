-- ===== src/Restore/Kept.antt =====
-- `MoveAside`, the installation and `MoveBack` of internal/restore/restore.go in sequence.
use nomctl.Prelude.{
  eqb_false, ℕ, ◌≡◌, refl, subst, sym, ◌∙◌, inl, inr, false, Option, none, some, List, [], ◌∷◌,
  ◌++◌, Text, bytes, text_eq, text_eqb_iff, ◌==◌, any, arith, Result, ok, err, Bool-cases,
  Option-cases,
}
use nomctl.Prelude.Dict.{Dict, get, put, get-put_other}
use nomctl.Host.{Entry, Host, World, pure}
use nomctl.Host.Keeps.{Keeps, Keeps-attempt, Keeps-bind, Keeps-option, keeps_rules}
use nomctl.Host.Leads.{Leads, Leads-bind, Leads-weaken, Leads-either}
use nomctl.Host.Files.{Holds, Holds-rename}
use nomctl.Host.Trees.{join_path}
use nomctl.Service.{start}
use nomctl.Service.Keeps.{service_rules}
use nomctl.Restore.{
  Places, Moving, home, aside, move_each, install_each, install, after_back, restart, settle,
}
use nomctl.Restore.Folders.{IsFolder, home-aside, home-home, staged_aside, staged_home}
use nomctl.Restore.Aside.{IsIn, AreFolders, IsHome, IsAside, WasMoved, IsTracked, move_each-cases}
use nomctl.Restore.Back.{IsRecord, IsKept, IsTracked→IsKept, Leads-move_back}

module _ (world : World) (at : Places) (stamp : ℕ) where
  IsRecord-put :
      (g : Text) (moved : Dict Text Text)
      → IsFolder g
      → IsRecord at stamp moved
      → IsRecord at stamp (put g (aside at stamp g) moved)
  unfolding put get
  IsRecord-put g [] g_is are = (g_is, refl, refl, tt)
  IsRecord-put g ((j, w) ∷ moved) g_is (j_is, w_is, once, are) = elim (Bool-cases (j == g)) [
    | inl one ↦
        rw one (g_is, refl, subst (λ x. get x moved ≡ none) ((text_eqb_iff j g).0 one) once, are)
    | inr two ↦ rw two (
      j_is,
      w_is,
      get-put_other g j (aside at stamp g) moved (λ q. eqb_false j g two (sym q)) ∙ once,
      IsRecord-put g moved g_is are,
    )
  ]

  abbrev pub HasRecord : Result Text Moving → Type 0
  HasRecord (ok m) = IsRecord at stamp m.moved
  HasRecord (err x) = Unit

  pub move_each-HasRecord :
      (fs : List Text) (moved : Dict Text Text) (h : Host)
      → AreFolders fs
      → IsRecord at stamp moved
      → HasRecord (move_each world at stamp fs moved h).0
  unfolding move_each pure
  move_each-HasRecord [] moved h are record_is = record_is
  move_each-HasRecord (g ∷ fs) moved h (g_is, are) record_is =
      elim (move_each-cases world at stamp g fs moved h) [
        | inl (missing, same) ↦ rw same (move_each-HasRecord fs moved h are record_is)
        | inr (inl (x, same)) ↦ rw same record_is
        | inr (inr (inl (x, y, free, failed, same))) ↦ rw same record_is
        | inr (inr (inr (free, done, same))) ↦ rw same (
            move_each-HasRecord fs (put g (aside at stamp g) moved) _ are
              (IsRecord-put g moved g_is record_is))
      ]

  module _ (suffix f : Text) (e : Entry) (is_folder : IsFolder f) where
    abbrev pub staging : Text
    staging = join_path at.znn_dir (bytes ".restore-" ++ suffix)

    IsAside-install_each :
        (fs : List Text)
        → AreFolders fs
        → Keeps (IsAside world at stamp f e) (install_each world at staging fs)
    unfolding install_each
    IsAside-install_each [] are = search keeps_rules depth 2
    IsAside-install_each (g ∷ fs) (g_is, are) =
        Keeps-bind _ _
          (Keeps-attempt _ (
            Holds-rename world (aside at stamp f) (some e) (join_path staging g) (home at g)
              (staged_aside at stamp suffix g f g_is) (home-aside at stamp g f g_is)))
          (λ r. Keeps-option r _ _ (IsAside-install_each fs are) (λ x. search keeps_rules depth 2))

    IsHome-install_each :
        (fs : List Text)
        → AreFolders fs
        → any (λ g. g == f) fs ≡ false
        → Keeps (IsHome world at stamp f e) (install_each world at staging fs)
    unfolding install_each
    IsHome-install_each [] are apart = search keeps_rules depth 2
    IsHome-install_each (g ∷ fs) (g_is, are) apart =
        Keeps-bind _ _
          (Keeps-attempt _ (
            Holds-rename world (home at f) (some e) (join_path staging g) (home at g)
              (staged_home at suffix g f is_folder)
              (home-home at g f (λ q. absurd (ground (arith, text_eqb_iff g f))))))
          (λ r.
            Keeps-option r _ _ (IsHome-install_each fs are (ground arith))
              (λ x. search keeps_rules depth 2))

    -- The folder stays where the record says while the others are installed.
    pub install-IsTracked :
        (fs : List Text) (m : Moving)
        → AreFolders fs
        → (m.error ≡ none → IsIn f fs → WasMoved world at stamp f e m.moved)
        → Leads
            (IsTracked world at stamp f e m.moved)
            (IsTracked world at stamp f e m.moved)
            (install world at staging fs m)
    install-IsTracked fs m are carried = elim (Option-cases m.error) [
      | inr (x, broken) ↦ rw broken (Leads-weaken _ (search keeps_rules depth 2) (λ h t. t))
      | inl fine ↦ rw fine (record {
        at = λ h tracked. elim tracked [
          | inl (was, kept) ↦ inl (was, (IsAside-install_each fs are).at h kept)
          | inr (unmoved, kept) ↦ elim (Bool-cases (any (λ g. g == f) fs)) [
            | inl within ↦ absurd (let was = carried fine within in ground arith)
            | inr apart ↦ inr (unmoved, (IsHome-install_each fs are apart).at h kept)
          ]
        ];
      })
    ]

    abbrev pub Kept : Host → Type 0
    Kept = IsKept world at stamp f e is_folder

    Holds-restart : (q : Text) (x : Text) → Keeps (Holds q (some e)) (restart world at x)
    Holds-restart q x = search (keeps_rules, service_rules) depth 10

    Leads-after_back : (x : Text) (errs : List Text) → Leads Kept Kept (after_back world at x errs)
    Leads-after_back x [] =
        Leads-either _ (Holds-restart (home at f) x) (Holds-restart (aside at stamp f) x)
    Leads-after_back x (y ∷ errs) =
        Leads-either _ (search keeps_rules depth 2) (search keeps_rules depth 2)

    pub settle-Kept :
        (moved : Dict Text Text) (r : Option Text)
        → IsRecord at stamp moved
        → Leads (IsTracked world at stamp f e moved) Kept (settle world at moved r)
    settle-Kept moved none are = record {
      at = λ h tracked.
          let kept_home : Keeps (IsHome world at stamp f e) (start world at.service_name) =
            search service_rules depth 3 in
          let kept_aside : Keeps (IsAside world at stamp f e) (start world at.service_name) =
            search service_rules depth 3 in
          (Leads-either _ kept_home kept_aside).at h
            (IsTracked→IsKept world at stamp f e is_folder moved h tracked);
    }
    settle-Kept moved (some x) are =
        Leads-bind _ _ (Leads-move_back world at stamp f e is_folder moved [] are) (λ h k. k)
          (λ errs. Leads-after_back x errs)
