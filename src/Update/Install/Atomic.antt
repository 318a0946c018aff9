-- ===== src/Update/Install/Atomic.antt =====
-- `Replace` of internal/update/update.go where it fails.
use nomctl.Prelude.{
  ℕ, ◌≡◌, ◌≢◌, ◌⊎◌, inl, inr, refl, ap, ◌∙◌, sym, false, none, some, Text, text_eq, eqb_ne, Result,
  err, arith, Option-cases,
}
use nomctl.Prelude.Dict.{get, dict_laws}
use nomctl.Host.{World, pure, ◌>>=◌}
use nomctl.Host.Keeps.{
  Keeps, Keeps-bind, Keeps-or_else, Keeps-pure, Keeps-raise, bind-cases, or_else-cases,
}
use nomctl.Update.Disk.{Disk, exists, content, rename, copy_file, remove_file}
use nomctl.Update.Disk.Apart.{Stands, stands_rules}
use nomctl.Update.Disk.Done.{rename_failed}
use nomctl.Update.Install.{
  previous_of, staged_of, keep_previous, discard_staged, install_staged, stage, replace,
}
use nomctl.Update.Install.Kept.{staged_ne, previous_ne, Stands-keep_previous}

-- What the names and contents of a disk decide, whatever its count of calls is.
abbrev IsOfFiles : (Disk → Type 0) → Type 0
IsOfFiles P = (d d' : Disk) → d'.names ≡ d.names → d'.held ≡ d.held → P d → P d'

module _ (world : World) (target : Text) (P : Disk → Type 0) (of_files : IsOfFiles P)
    (copied : (new : Text) → Keeps P (copy_file world new (staged_of target)))
    (removed : Keeps P (remove_file world (staged_of target))) where
  Keeps-discard_staged : (e : Text) → Keeps P (discard_staged world target e)
  unfolding discard_staged
  Keeps-discard_staged e =
      Keeps-bind _ _ (Keeps-or_else _ _ removed (λ e'. Keeps-pure tt)) (λ a. Keeps-raise _)

  install_staged_failed :
      (d : Disk) (e : Text)
      → (install_staged world target d).0 ≡ err e
      → P d
      → P (install_staged world target d).1
  unfolding install_staged
  install_staged_failed d e x p =
      elim (or_else-cases (rename world (staged_of target) target) (discard_staged world target)
        d) [
          | inl (a, done, same) ↦ absurd (ground arith)
          | inr (e', failed, same) ↦
              (let (names, held) = rename_failed world (staged_of target) target d e' failed in
                rw same ((Keeps-discard_staged e').at _ (of_files d _ names held p)))
        ]

  -- Staging and installing, where they fail, keep what the staged name does not touch.
  stage_failed :
      (new : Text) (d : Disk) (e : Text)
      → (stage world new target d).0 ≡ err e
      → P d
      → P (stage world new target d).1
  unfolding stage
  stage_failed new d e x p =
      elim (bind-cases (copy_file world new (staged_of target)) (λ _. install_staged world target)
        d) [
          | inl (e', failed, same) ↦ rw same ((copied new).at d p)
          | inr (a, done, same) ↦ rw same (
              install_staged_failed _ e (ap (λ (r : Result Text Unit × Disk). r.0) (sym same) ∙ x)
                ((copied new).at d p))
        ]

  replace_failed_keeps :
      (new : Text) (d : Disk) (e : Text)
      → (replace world new target d).0 ≡ err e
      → P (keep_previous world target d).1
      → P (replace world new target d).1
  unfolding replace
  replace_failed_keeps new d e x p =
      elim (bind-cases (keep_previous world target) (λ _. stage world new target) d) [
        | inl (e', failed, same) ↦ rw same p
        | inr (a, done, same) ↦
            rw same
              (stage_failed new _ e (ap (λ (r : Result Text Unit × Disk). r.0) (sym same) ∙ x) p)
      ]

abbrev IsAbsent : Text → Disk → Type 0
IsAbsent q d = get q d.names ≡ none

module _ (world : World) (target : Text) where
  Absent-copy_file : (new : Text) → Keeps (IsAbsent target) (copy_file world new (staged_of target))
  unfolding copy_file
  Absent-copy_file new = record {
    at = λ d x. grind (arith, dict_laws, eqb_ne (staged_of target) target (staged_ne target));
  }

  Absent-remove_file : Keeps (IsAbsent target) (remove_file world (staged_of target))
  unfolding remove_file
  Absent-remove_file = record { at = λ d x. grind (arith, dict_laws) }

  Absent-keep_previous :
      (d : Disk) → IsAbsent target d → IsAbsent target (keep_previous world target d).1
  unfolding keep_previous exists ◌>>=◌ pure
  Absent-keep_previous d x = rw x x

-- Whatever calls fail, and whatever a failed copy leaves behind: if the replacement fails, the program
-- at the target is the one that was there, or none is if there was none. The target is no other name
-- of the staged file, and none of the old copy, unless the old copy can be removed.
pub replace_failed :
    (world : World) (new target : Text) (d : Disk) (e : Text)
    → ((n : ℕ) → get target d.names ≡ some n → get (staged_of target) d.names ≢ some n)
    → ((n : ℕ) → get target d.names ≡ some n → get (previous_of target) d.names ≢ some n)
      ⊎ (world.fails d.calls ≡ false)
    → (replace world new target d).0 ≡ err e
    → content target (replace world new target d).1 ≡ content target d
unfolding content
replace_failed world new target d e staged previous x = elim (Option-cases (get target d.names)) [
  | inl absent ↦
      (let after : IsAbsent target (replace world new target d).1 =
          replace_failed_keeps world target (IsAbsent target) (λ d d' names held p. rw names p)
            (Absent-copy_file world target) (Absent-remove_file world target) new d e x
            (Absent-keep_previous world target d absent) in
        rw (content, after, absent) refl)
  | inr (n, there) ↦
      (let P = Stands target n (d.held n) (staged_of target) in
        let off : (get (previous_of target) d.names ≢ some n) ⊎ (world.fails d.calls ≡ false) =
          elim previous [ inl apart ↦ inl (apart n there) | inr fine ↦ inr fine ] in
        let after : P (replace world new target d).1 =
          replace_failed_keeps world target P
            (λ d d' names held s. record {
              at = rw names s.at;
              text = rw held s.text;
              away = rw names s.away;
            })
            (λ new. search (stands_rules, staged_ne) depth 4)
            (search (stands_rules, staged_ne) depth 4) new d e x
            (Stands-keep_previous world target target n (d.held n) (previous_ne target) d off
              (record { at = there; text = refl; away = staged n there })) in
        rw (content, after.at, there) (ap some after.text))
]
