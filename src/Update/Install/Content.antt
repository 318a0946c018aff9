-- ===== src/Update/Install/Content.antt =====
-- What the target holds after a replacement and after a rollback.
use nomctl.Prelude.{
  ℕ, ◌≡◌, ◌≢◌, ◌⊎◌, inl, refl, ap, ◌∙◌, sym, false, some, ◌++◌, Text, bytes, text_eq, ok,
}
use nomctl.Prelude.Dict.{get}
use nomctl.Host.{World, ◌>>=◌, ignore}
use nomctl.Host.Keeps.{
  Keeps, Keeps-bind, Keeps-or_else, Keeps-pure, Keeps-raise, bind_done, bind-raise_fails,
  or_else_done,
}
use nomctl.Update.Disk.{Disk, exists, content, rename, copy_file, remove_file}
use nomctl.Update.Disk.Apart.{Stands, Stands-copy_file_away, Stands-remove_file, Stands-rename}
use nomctl.Update.Disk.Done.{content-at, copy_file-content, rename-content}
use nomctl.Update.Install.{
  previous_of, staged_of, keep_previous, put_back, discard_staged, install_staged, stage, replace,
  rollback,
}
use nomctl.Update.Install.Kept.{staged_ne, previous_ne, staged_ne_previous, Stands-keep_previous}
use nomctl.Update.Install.Saved.{result_of, StandsBeside, IsSaved, AreApart, keep_previous-IsSaved}

module _ (world : World) (target : Text) where
  discard_staged-fails : (e : Text) (d : Disk) → (discard_staged world target e d).0 ≢ ok tt
  unfolding discard_staged
  discard_staged-fails e d x =
      bind-raise_fails (ignore (remove_file world (staged_of target)))
        (bytes "install " ++ target ++ bytes ": " ++ e) d tt x

  install_staged-content :
      (d : Disk)
      → (install_staged world target d).0 ≡ ok tt
      → content target (install_staged world target d).1 ≡ content (staged_of target) d
  unfolding install_staged
  install_staged-content d x =
      let (done, same) =
        or_else_done (rename world (staged_of target) target) (discard_staged world target) d tt
          discard_staged-fails x in
      rw same (rename-content world (staged_of target) target d done)

  stage-content :
      (new : Text) (n : ℕ) (c : Text) (d : Disk)
      → Stands new n c (staged_of target) d
      → (stage world new target d).0 ≡ ok tt
      → content target (stage world new target d).1 ≡ some c
  unfolding stage
  stage-content new n c d s x =
      let (a, done, same) =
        bind_done (copy_file world new (staged_of target)) (λ _. install_staged world target) d tt
          x in
      rw same (
        install_staged-content _ (ap result_of (sym same) ∙ x)
        ∙ copy_file-content world new (staged_of target) n c d s done)

-- After a replacement that succeeds, the target holds the content of the new program, whatever failed on
-- the way. The file of the new program is under neither of the two names that the replacement writes
-- besides.
pub replace_done :
    (world : World) (new target : Text) (d : Disk) (n : ℕ)
    → get new d.names ≡ some n
    → get (previous_of target) d.names ≢ some n
    → get (staged_of target) d.names ≢ some n
    → (replace world new target d).0 ≡ ok tt
    → content target (replace world new target d).1 ≡ content new d
unfolding replace
replace_done world new target d n there previous staged x =
    let ne : previous_of target ≢ new = λ p. previous (ap (λ q. get q d.names) p ∙ there) in
    let (a, done, same) =
      bind_done (keep_previous world target) (λ _. stage world new target) d tt x in
    let kept =
      Stands-keep_previous world target new n (d.held n) ne d (inl previous)
        (record { at = there; text = refl; away = staged }) in
    let after = stage-content world target new n (d.held n) _ kept (ap result_of (sym same) ∙ x) in
    rw same (after ∙ sym (content-at new n d there))

module _ (world : World) (target : Text) where
  Keeps-stage :
      (new : Text) (p : ℕ) (c : Text)
      → Keeps (Stands (previous_of target) p c (staged_of target)) (stage world new target)
  unfolding stage install_staged discard_staged
  Keeps-stage new p c =
      let beside = staged_ne_previous target in
      let P = Stands (previous_of target) p c (staged_of target) in
      let removes : Keeps P (remove_file world (staged_of target)) =
        Stands-remove_file world (previous_of target) p c (staged_of target) (staged_of target)
          beside in
      Keeps-bind _ _
        (Stands-copy_file_away world (previous_of target) p c (staged_of target) new beside)
        (λ a.
          Keeps-or_else _ _
            (Stands-rename world (previous_of target) p c (staged_of target) (staged_of target)
              target beside (λ q. previous_ne target (sym q)) (λ q. staged_ne target (sym q)))
            (λ e.
              Keeps-bind _ _ (Keeps-or_else _ _ removes (λ e'. Keeps-pure tt))
                (λ b. Keeps-raise _)))

  previous_kept :
      (new : Text) (i : ℕ) (c : Text) (d : Disk)
      → StandsBeside world target i c d
      → ((get (previous_of target) d.names ≢ some i) × AreApart world target d)
        ⊎ (world.fails d.calls ≡ false)
      → (replace world new target d).0 ≡ ok tt
      → IsSaved world target c (replace world new target d).1
  unfolding replace
  previous_kept new i c d s before x =
      let (a, done, same) =
        bind_done (keep_previous world target) (λ _. stage world new target) d tt x in
      let (p, saved) = keep_previous-IsSaved world target i c d s before done in
      rw same (p, (Keeps-stage new p c).at _ saved)

  rollback_done :
      (c : Text) (d : Disk)
      → IsSaved world target c d
      → (rollback world target d).0 ≡ ok tt
      → content target (rollback world target d).1 ≡ some c
  unfolding rollback put_back exists ◌>>=◌
  rollback_done c d (p, s) x =
      let same : rollback world target d ≡ put_back world target d = rw s.at in
      let (a, done, same') =
        bind_done (copy_file world (previous_of target) (staged_of target))
          (λ _. rename world (staged_of target) target) d tt (ap result_of (sym same) ∙ x) in
      rw (same ∙ same') (
        rename-content world (staged_of target) target _ (ap result_of (sym (same ∙ same')) ∙ x)
        ∙ copy_file-content world (previous_of target) (staged_of target) p c d s done)

-- A rollback after a replacement that had a program to keep, both without an error, brings back the
-- content of that program. The target is no other name of the staged file; and the old copy is a file
-- of its own, unless it can be removed.
pub rollback-replace :
    (world : World) (new target : Text) (d : Disk) (i : ℕ)
    → get target d.names ≡ some i
    → get (staged_of target) d.names ≢ some i
    → ((get (previous_of target) d.names ≢ some i)
        × ((p : ℕ)
            → get (previous_of target) d.names ≡ some p
            → get (staged_of target) d.names ≢ some p))
      ⊎ (world.fails d.calls ≡ false)
    → (replace world new target d).0 ≡ ok tt
    → (rollback world target (replace world new target d).1).0 ≡ ok tt
    → content target (rollback world target (replace world new target d).1).1 ≡ content target d
rollback-replace world new target d i there staged before x y =
    rollback_done world target (d.held i) (replace world new target d).1
      (previous_kept world target new i (d.held i) d
        (record { at = there; text = refl; away = staged }) before x)
      y
    ∙ sym (content-at target i d there)
