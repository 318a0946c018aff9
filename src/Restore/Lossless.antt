-- ===== src/Restore/Lossless.antt =====
-- What follows the stop of the node in `Run` of internal/restore/restore.go.
use nomctl.Prelude.{
  ℕ, ◌≡◌, refl, subst, sym, inl, inr, Bool, true, some, List, [], ◌∷◌, Text, text_eq, ◌==◌, any,
  keep, arith, Result, ok, err, Bool-cases,
}
use nomctl.Prelude.Dict.{get}
use nomctl.Host.{Entry, Host, World, Act, ◌>>=◌, pure, or_else, make_dirs}
use nomctl.Host.Keeps.{bind-cases}
use nomctl.Host.Leads.{Leads, Leads-bind}
use nomctl.Host.Files.{Holds-make_dirs}
use nomctl.Backup.{folders}
use nomctl.Restore.{Places, Moving, home, move_each, move_aside, install, settle, swap}
use nomctl.Restore.Inspect.{Archives, Manifest, inspect, and_then, walk, Seen, manifest_of}
use nomctl.Restore.Folders.{IsFolder}
use nomctl.Restore.Aside.{AreFolders, IsHome, IsCarried, move_each_lem}
use nomctl.Restore.Back.{IsRecord, IsTracked→IsKept}
use nomctl.Restore.Kept.{
  HasRecord, move_each-HasRecord, staging, install-IsTracked, Kept, settle-Kept,
}

module _ (p : Text → Bool) where
  AreFolders-keep : (fs : List Text) → AreFolders fs → AreFolders (keep p fs)
  AreFolders-keep [] are = tt
  AreFolders-keep (f ∷ fs) (f_is, are) = elim (Bool-cases (p f)) [
    | inl kept ↦ rw kept (f_is, AreFolders-keep fs are)
    | inr left ↦ rw left (AreFolders-keep fs are)
  ]

abbrev pub HasFolders : Result Text Manifest → Type 0
HasFolders (ok m) = AreFolders m.folders
HasFolders (err e) = Unit

manifest_of-HasFolders : (seen : Seen) → HasFolders (manifest_of seen)
manifest_of-HasFolders seen =
    let p : Text → Bool = λ f. any (λ g. f == g) seen.present in
    let kept : AreFolders (keep p folders) =
      AreFolders-keep p folders
        (inl refl, (inr (inl refl), (inr (inr (inl refl)), (inr (inr (inr refl)), tt)))) in
    elim (Bool-cases (any (λ f. true) (keep p folders))) [
      | inl found ↦ rw found kept
      | inr empty ↦ rw empty tt
    ]

abbrev HasSeen : Result Text Seen → Type 0
HasSeen r = HasFolders (and_then r manifest_of)

and_then-HasFolders : (r : Result Text Seen) → HasSeen r
and_then-HasFolders (ok seen) = manifest_of-HasFolders seen
and_then-HasFolders (err e) = tt

pub inspect-HasFolders : (a : Archives) (archive : Text) → HasFolders (inspect a archive)
unfolding inspect
inspect-HasFolders a archive =
    and_then-HasFolders (walk a (a.headers archive).0 (a.headers archive).1 _)

module _ (world : World) (at : Places) (stamp : ℕ) (suffix f : Text) (e : Entry)
    (is_folder : IsFolder f) (a_dir : e.is_dir ≡ true) where
  abbrev At : Host → Type 0
  At = IsHome world at stamp f e

  -- What the moving aside gives: a record of where each folder is.
  abbrev IsGood : List Text → Result Text Moving → Host → Type 0
  IsGood fs (ok m) h = IsCarried world at stamp f e fs [] m h × IsRecord at stamp m.moved
  IsGood fs (err x) h = ⊥

  IsGood-move_each :
      (fs : List Text) (h : Host)
      → AreFolders fs
      → At h
      → IsGood fs (move_each world at stamp fs [] h).0 (move_each world at stamp fs [] h).1
  unfolding get
  IsGood-move_each fs h are here =
      let (m, result, carried) =
        move_each_lem world at stamp f e is_folder a_dir fs [] h are (inr (refl, here)) in
      rw result (
        carried,
        subst (HasRecord world at stamp) result (move_each-HasRecord world at stamp fs [] h are tt),
      )

  abbrev fallback : Text → Act Moving
  fallback x = pure (record { moved = []; error = some x })

  IsGoodAfter : List Text → Host → Result Text Moving × Host → Type 0
  IsGoodAfter fs h r = IsGood fs (or_else (λ _. r) fallback h).0 (or_else (λ _. r) fallback h).1

  good_after :
      (fs : List Text) (h g : Host) (r : Result Text Moving)
      → IsGood fs r g
      → IsGoodAfter fs h (r, g)
  unfolding IsGoodAfter or_else
  good_after fs h g (ok m) good = good
  good_after fs h g (err x) good = absurd good

  IsGood-move_aside :
      (fs : List Text) (h : Host)
      → AreFolders fs
      → At h
      → IsGood fs (move_aside world at stamp fs h).0 (move_aside world at stamp fs h).1
  unfolding move_aside get pure or_else IsGoodAfter
  IsGood-move_aside fs h are here =
      let still : At (make_dirs world at.restore_dir h).1 =
        (Holds-make_dirs world (home at f) (some e) at.restore_dir).at h here in
      elim (bind-cases (make_dirs world at.restore_dir) (λ _. move_each world at stamp fs []) h) [
        | inl (x, failed, same) ↦
            subst (IsGoodAfter fs h) (sym same)
              ((inr (refl, still), (λ was. was), (λ fine. absurd (ground arith))), tt)
        | inr (u, made, same) ↦ subst (IsGoodAfter fs h) (sym same) (
            good_after fs h _ _
              (IsGood-move_each fs (make_dirs world at.restore_dir h).1 are still))
      ]

  abbrev pub IsSafe : Host → Type 0
  IsSafe = Kept world at stamp suffix f e is_folder

  after_good :
      (fs : List Text) (r : Result Text Moving) (g : Host)
      → AreFolders fs
      → IsGood fs r g
      → IsSafe
          (((λ _. (r, g)) >>= λ m.
              install world at (staging world at stamp suffix f e is_folder) fs m
              >>= settle world at m.moved)
            g).1
  unfolding ◌>>=◌
  after_good fs (ok m) g are ((tracked, on, later), record_is) =
      (Leads-bind _ _ (install-IsTracked world at stamp suffix f e is_folder fs m are later)
          (λ h t. IsTracked→IsKept world at stamp f e is_folder m.moved h t)
          (λ r. settle-Kept world at stamp suffix f e is_folder m.moved r record_is)).at
        g tracked
  after_good fs (err x) g are good = absurd good

  pub Leads-swap :
      (fs : List Text)
      → AreFolders fs
      → Leads At IsSafe (swap world at (staging world at stamp suffix f e is_folder) stamp fs)
  unfolding swap ◌>>=◌
  Leads-swap fs are = record {
    at = λ h here.
        after_good fs (move_aside world at stamp fs h).0 (move_aside world at stamp fs h).1 are
          (IsGood-move_aside fs h are here);
  }
