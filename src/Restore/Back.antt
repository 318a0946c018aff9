-- ===== src/Restore/Back.antt =====
-- What `MoveBack` of internal/restore/restore.go leaves of a folder.
use nomctl.Prelude.{
  eqb_false, eqb_refl, ℕ, ◌≡◌, ◌≢◌, subst, ap, sym, ◌∙◌, ◌⊎◌, inl, inr, Bool, true, false, Option,
  none, some, List, [], ◌∷◌, Text, text_eq, text_eqb_iff, ◌==◌, arith, Result-cases, Bool-cases,
}
use nomctl.Prelude.Dict.{Dict, get}
use nomctl.Host.{Entry, Host, World, Act, pure, attempt}
use nomctl.Host.Keeps.{Keeps, Keeps-attempt, Keeps-bind, keeps_rules}
use nomctl.Host.Leads.{Leads, Leads-bind, Leads-or_else, Leads-weaken, Leads-either, Leads-attempt}
use nomctl.Host.Files.{Holds, holds_rules}
use nomctl.Host.Trees.{move_tree, trees_rules, move_tree_failed, move_tree_done}
use nomctl.Restore.{Places, home, aside, add_error, move_back, back_one, clear_first}
use nomctl.Restore.Folders.{IsFolder, home-aside, home-home, aside-aside}
use nomctl.Restore.Aside.{IsHome, IsAside, IsTracked}

-- The record of the moves has each folder once, with the path of its safety copy.
abbrev pub IsRecord : Places → ℕ → Dict Text Text → Type 0
IsRecord at stamp [] = Unit
IsRecord at stamp ((g, p) ∷ moved) =
    IsFolder g × (p ≡ aside at stamp g) × (get g moved ≡ none) × IsRecord at stamp moved

module _ (world : World) (at : Places) (stamp : ℕ) (q : Text) (o : Option Entry) where
  Holds-clear_first :
      (g : Text) (there : Bool) → home at g ≢ q → Keeps (Holds q o) (clear_first world at g there)
  Holds-clear_first g true ne = search (keeps_rules, holds_rules, ne) depth 6
  Holds-clear_first g false ne = search keeps_rules depth 2

  Holds-back_one : (g p : Text) → home at g ≢ q → p ≢ q → Keeps (Holds q o) (back_one world at g p)
  Holds-back_one g p ne ne' =
      search (keeps_rules, holds_rules, trees_rules, Holds-clear_first, ne, ne') depth 10

module _ (world : World) (at : Places) (stamp : ℕ) (f : Text) (e : Entry)
    (is_folder : IsFolder f) where
  -- The folder is at home or aside.
  abbrev pub IsKept : Host → Type 0
  IsKept h = IsHome world at stamp f e h ⊎ IsAside world at stamp f e h

  -- Another folder's way back.
  Holds-other :
      (g : Text)
      → IsFolder g
      → g ≢ f
      → Keeps (IsHome world at stamp f e) (back_one world at g (aside at stamp g))
        × Keeps (IsAside world at stamp f e) (back_one world at g (aside at stamp g))
  Holds-other g g_is ne = (
    Holds-back_one world at stamp (home at f) (some e) g (aside at stamp g) (home-home at g f ne)
        (λ q. home-aside at stamp f g is_folder (sym q)),
    Holds-back_one world at stamp (aside at stamp f) (some e) g (aside at stamp g)
        (home-aside at stamp g f g_is) (aside-aside at stamp g f ne),
  )

  Leads-move :
      Leads (IsAside world at stamp f e) IsKept (move_tree world (aside at stamp f) (home at f))
  Leads-move = record {
    at = λ h kept.
        let m = move_tree world (aside at stamp f) (home at f) in
        elim (Result-cases (m h).0) [
          | inl (u, done) ↦ inl (move_tree_done world (aside at stamp f) (home at f) h done ∙ kept)
          | inr (x, failed) ↦ inr (
              move_tree_failed world (aside at stamp f) (home at f) h x
                (λ q. home-aside at stamp f f is_folder (sym q)) failed
              ∙ kept)
        ];
  }

  -- The folder's own way back, which may fail at either step.
  Leads-own : Leads (IsAside world at stamp f e) IsKept (back_one world at f (aside at stamp f))
  Leads-own =
      Leads-bind _ _
        (Leads-weaken _
          (search
            (
              keeps_rules,
              Holds-clear_first world at stamp (aside at stamp f) (some e),
              (home-aside at stamp f f is_folder),
            )
            depth 6)
          (λ h kept. kept))
        (λ h kept. inr kept)
        (λ _.
          Leads-or_else _ _ Leads-move (λ h kept. kept)
            (λ x. Leads-either _ (search keeps_rules depth 2) (search keeps_rules depth 2)))

  -- Where the record has no such folder, it stays.
  Holds-absent :
      (moved : Dict Text Text) (errs : List Text)
      → IsRecord at stamp moved
      → get f moved ≡ none
      → Keeps (IsHome world at stamp f e) (move_back world at moved errs)
        × Keeps (IsAside world at stamp f e) (move_back world at moved errs)
  unfolding move_back get
  Holds-absent [] errs are absent = (search keeps_rules depth 2, search keeps_rules depth 2)
  Holds-absent ((g, p) ∷ moved) errs (g_is, p_is, once, are) absent =
      let ne : g ≢ f = λ q. absurd (ground (arith, text_eqb_iff g f)) in
      let rest : get f moved ≡ none = ground (arith, text_eqb_iff g f) in
      let (home_kept, aside_kept) = Holds-other g g_is ne in
      rw p_is (
        Keeps-bind _ _ (Keeps-attempt _ home_kept) (λ r. (Holds-absent moved _ are rest).0),
        Keeps-bind _ _ (Keeps-attempt _ aside_kept) (λ r. (Holds-absent moved _ are rest).1),
      )

  pub IsTracked→IsKept :
      (moved : Dict Text Text) (h : Host) → IsTracked world at stamp f e moved h → IsKept h
  IsTracked→IsKept moved h (inl (was, kept)) = inr kept
  IsTracked→IsKept moved h (inr (unmoved, kept)) = inl kept

  Leads-IsTracked :
      {A : Type 0} (m : Act A) (moved : Dict Text Text)
      → Keeps (IsHome world at stamp f e) m
      → Keeps (IsAside world at stamp f e) m
      → Leads (IsTracked world at stamp f e moved) (IsTracked world at stamp f e moved) m
  Leads-IsTracked m moved home_kept aside_kept = record {
    at = λ h tracked. elim tracked [
      | inl (was, kept) ↦ inl (was, aside_kept.at h kept)
      | inr (unmoved, kept) ↦ inr (unmoved, home_kept.at h kept)
    ];
  }

  own_step :
      (moved : Dict Text Text) (errs : List Text)
      → IsRecord at stamp moved
      → get f moved ≡ none
      → Leads
          (IsTracked world at stamp f e ((f, aside at stamp f) ∷ moved))
          IsKept
          (move_back world at ((f, aside at stamp f) ∷ moved) errs)
  unfolding move_back get
  own_step moved errs are absent = record {
    at = λ h tracked. elim tracked [
      | inr (unmoved, kept) ↦ absurd (ground (arith, eqb_refl f))
      | inl (was, kept) ↦
          (Leads-bind _ _ (Leads-attempt _ Leads-own) (λ h' k. k)
              (λ r.
                let (home_kept, aside_kept) =
                  Holds-absent moved (add_error world at r errs) are absent in
                Leads-either _ home_kept aside_kept)).at
            h kept
    ];
  }

  -- On the way back every folder that was tracked is kept, whatever fails.
  pub Leads-move_back :
      (moved : Dict Text Text) (errs : List Text)
      → IsRecord at stamp moved
      → Leads (IsTracked world at stamp f e moved) IsKept (move_back world at moved errs)
  unfolding move_back get pure
  Leads-move_back [] errs are = record {
    at = λ h tracked. elim tracked [
      | inl (was, kept) ↦ absurd (ground arith)
      | inr (unmoved, kept) ↦ inl kept
    ];
  }
  Leads-move_back ((g, p) ∷ moved) errs (g_is, p_is, once, are) = elim (Bool-cases (g == f)) [
    | inr two ↦
        (let ne = eqb_false g f two in
          let (home_kept, aside_kept) = Holds-other g g_is ne in
          let same : get f ((g, aside at stamp g) ∷ moved) ≡ get f moved = ground (arith, two) in
          rw p_is (record {
            at = λ h tracked.
                (Leads-bind _ _
                    (Leads-IsTracked (attempt (back_one world at g (aside at stamp g))) moved
                      (Keeps-attempt _ home_kept) (Keeps-attempt _ aside_kept))
                    (λ h' t. IsTracked→IsKept moved h' t) (λ r. Leads-move_back moved _ are)).at
                  h
                  (elim tracked [
                    | inl (was, kept) ↦ inl (sym same ∙ was, kept)
                    | inr (unmoved, kept) ↦ inr (sym same ∙ unmoved, kept)
                  ]);
          }))
    | inl one ↦
        (let q = (text_eqb_iff g f).0 one in
          subst
            (λ x.
              Leads (IsTracked world at stamp f e ((x, p) ∷ moved)) IsKept
                (move_back world at ((x, p) ∷ moved) errs))
            (sym q)
            (subst
              (λ x.
                Leads (IsTracked world at stamp f e ((f, x) ∷ moved)) IsKept
                  (move_back world at ((f, x) ∷ moved) errs))
              (sym (p_is ∙ ap (aside at stamp) q))
              (own_step moved errs are (subst (λ x. get x moved ≡ none) q once))))
  ]
