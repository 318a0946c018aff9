-- ===== src/Resync/Gone.antt =====
-- `Wipe` of internal/resync/resync.go where it ends without an error.
use nomctl.Prelude.{
  ℕ, ◌≡◌, ◌≢◌, inl, inr, refl, ap, sym, ◌∙◌, false, List, [], ◌∷◌, ◌++◌, Text, bytes, text_eq,
  Result, ok, arith, eqb_refl, text_eqb_iff, Bool-cases,
}
use nomctl.Prelude.Dict.{get, dict_laws}
use nomctl.Host.{
  Host, World, io_error, ◌>>=◌, pure, raise, or_else, is_dir, is_dir_entry, remove_all,
}
use nomctl.Host.Keeps.{Keeps, Keeps-bind, keeps_rules, bind_done}
use nomctl.Host.Trees.{join_path}
use nomctl.Resync.{Wiping, dirs, wipe_dir, wipe_each, wipe, outcome}

abbrev pub IsNoDir : Text → Host → Type 0
IsNoDir p h = is_dir_entry (get p h.files) ≡ false

abbrev pub AreGone : Text → List Text → Host → Type 0
AreGone data_dir [] h = Unit
AreGone data_dir (d ∷ ds) h = IsNoDir (join_path data_dir d) h × AreGone data_dir ds h

snoc_ne : (xs : List Text) (x : Text) → xs ++ x ∷ [] ≢ []
snoc_ne [] x e = cc
snoc_ne (y ∷ xs) x e = cc

module _ (world : World) (data_dir : Text) where
  IsNoDir-remove_all : (p q : Text) → Keeps (IsNoDir q) (remove_all world p)
  unfolding remove_all
  IsNoDir-remove_all p q = record { at = λ h gone. grind (arith, dict_laws, text_eqb_iff p q) }

  wipe_dir_done :
      (w w' : Wiping) (p : Text) (h : Host)
      → (wipe_dir world data_dir w p h).0 ≡ ok w'
      → w'.errs ≡ []
      → (w.errs ≡ []) × IsNoDir p (wipe_dir world data_dir w p h).1
  unfolding wipe_dir is_dir ◌>>=◌ or_else pure remove_all
  wipe_dir_done w w' p h done fine = elim (Bool-cases (is_dir_entry (get p h.files))) [
    | inr no_dir ↦ ground arith
    | inl a_dir ↦ elim (Bool-cases (world.fails h.calls)) [
      | inr works ↦ grind (arith, dict_laws, eqb_refl p)
      | inl broken ↦ absurd (
          ground (arith, snoc_ne w.errs (bytes "failed to delete " ++ p ++ bytes ": " ++ io_error)))
    ]
  ]

  outcome_done :
      (k n : ℕ) (errs : List Text) (h : Host)
      → (outcome world data_dir k errs h).0 ≡ ok n
      → (errs ≡ []) × ((outcome world data_dir k errs h).1 ≡ h)
  unfolding pure raise
  outcome_done k n [] h done = (refl, refl)
  outcome_done k n (e ∷ es) h done = absurd (ground arith)

  IsNoDir-wipe_each :
      (q : Text) (ds : List Text) (w : Wiping) → Keeps (IsNoDir q) (wipe_each world data_dir ds w)
  unfolding wipe_each wipe_dir
  IsNoDir-wipe_each q [] w = search keeps_rules depth 2
  IsNoDir-wipe_each q (d ∷ ds) w =
      Keeps-bind _ _ (search (keeps_rules, IsNoDir-remove_all) depth 12)
        (λ w'. IsNoDir-wipe_each q ds w')

  wipe_each_done :
      (ds : List Text) (w w' : Wiping) (h : Host)
      → (wipe_each world data_dir ds w h).0 ≡ ok w'
      → w'.errs ≡ []
      → (w.errs ≡ []) × AreGone data_dir ds (wipe_each world data_dir ds w h).1
  unfolding wipe_each pure
  wipe_each_done [] w w' h done fine = (ground arith, tt)
  wipe_each_done (d ∷ ds) w w' h done fine =
      let p = join_path data_dir d in
      let (w1, first, same) =
        bind_done (wipe_dir world data_dir w p) (wipe_each world data_dir ds) h w' done in
      let g = (wipe_dir world data_dir w p h).1 in
      let (fine1, gone) =
        wipe_each_done ds w1 w' g (ap (λ (r : Result Text Wiping × Host). r.0) (sym same) ∙ done)
          fine in
      let (fine0, gone0) = wipe_dir_done w w1 p h first fine1 in
      (fine0, rw same ((IsNoDir-wipe_each p ds w1).at g gone0, gone))

-- A wiping without an error leaves no directory of the four, though it goes on after a failure.
pub wipe-AreGone :
    (world : World) (data_dir : Text) (n : ℕ) (h : Host)
    → (wipe world data_dir h).0 ≡ ok n
    → AreGone data_dir dirs (wipe world data_dir h).1
unfolding wipe
wipe-AreGone world data_dir n h done =
    let start : Wiping = record { deleted = 0; errs = [] } in
    let (w, first, same) =
      bind_done (wipe_each world data_dir dirs start) (λ w. outcome world data_dir w.deleted w.errs)
        h n done in
    let g = (wipe_each world data_dir dirs start h).1 in
    let (fine, as_before) =
      outcome_done world data_dir w.deleted n w.errs g
        (ap (λ (r : Result Text ℕ × Host). r.0) (sym same) ∙ done) in
    rw (same, as_before) ((wipe_each_done world data_dir dirs start w h first fine).1)
