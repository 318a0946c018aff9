-- ===== src/Update/Install/Kept.antt =====
-- What `Replace` of internal/update/update.go leaves alone while it keeps the old program.
use nomctl.Prelude.{
  longer_ne, append_ne, Option-cases, ℕ, ◌≡◌, ◌≢◌, ◌⊎◌, inl, inr, ap, ◌∙◌, sym, false, some, bytes,
  Text, text_eq, arith, subst,
}
use nomctl.Prelude.Dict.{get}
use nomctl.Host.{World, ignore, pure, ◌>>=◌}
use nomctl.Host.Keeps.{bind-cases, or_else-cases}
use nomctl.Update.Disk.{Disk, exists, copy_file, link, remove_file}
use nomctl.Update.Disk.Apart.{Stands, Stands-copy_file, Stands-remove_file, Stands-link}
use nomctl.Update.Disk.Done.{ignore-state, link_failed, remove_file-gone, remove_file-away}
use nomctl.Update.Install.{previous_of, staged_of, link_or_copy, keep_copy, keep_previous}

module _ (target : Text) where
  pub staged_ne : staged_of target ≢ target
  staged_ne = longer_ne target _ _

  pub previous_ne : previous_of target ≢ target
  previous_ne = longer_ne target _ _

  pub staged_ne_previous : staged_of target ≢ previous_of target
  staged_ne_previous = append_ne target (bytes ".staged") (bytes ".previous") (λ q. ground arith)

module _ (world : World) (target : Text) where
  abbrev pub removed : Disk → Disk
  removed d = (ignore (remove_file world (previous_of target)) d).1

  -- After the removal the name of the old copy does not lead to the file, if it did not, or if the
  -- removal does not fail.
  pub removed-away :
      (n : ℕ) (d : Disk)
      → (get (previous_of target) d.names ≢ some n) ⊎ (world.fails d.calls ≡ false)
      → get (previous_of target) (removed d).names ≢ some n
  removed-away n d off h =
      let state = ignore-state (remove_file world (previous_of target)) d in
      let h' = ap (λ (e : Disk). get (previous_of target) e.names) (sym state) ∙ h in
      elim off [
        | inl away ↦ remove_file-away world (previous_of target) (previous_of target) n d away h'
        | inr fine ↦
            (let gone = remove_file-gone world (previous_of target) d fine in
              let q = sym gone ∙ h' in ground arith)
      ]

  module _ (q : Text) (n : ℕ) (c : Text) (ne : previous_of target ≢ q) where
    pub Stands-removed :
        (d : Disk) → Stands q n c (staged_of target) d → Stands q n c (staged_of target) (removed d)
    Stands-removed d s =
        subst (Stands q n c (staged_of target))
          (sym (ignore-state (remove_file world (previous_of target)) d))
          ((Stands-remove_file world q n c (staged_of target) (previous_of target) ne).at d s)

    Stands-link_or_copy :
        (d : Disk)
        → get (previous_of target) d.names ≢ some n
        → Stands q n c (staged_of target) d
        → Stands q n c (staged_of target) (link_or_copy world target d).1
    unfolding link_or_copy
    Stands-link_or_copy d off s =
        let linked =
          (Stands-link world q n c (staged_of target) target (previous_of target) ne
              (λ p. staged_ne_previous target (sym p))).at
            d s in
        elim (or_else-cases (link world target (previous_of target))
          (λ _. copy_file world target (previous_of target)) d) [
            | inl (a, done, same) ↦ rw same linked
            | inr (e, failed, same) ↦
                (let (names, held) = link_failed world target (previous_of target) d e failed in
                  rw same (
                    Stands-copy_file world q n c (staged_of target) target (previous_of target) _ ne
                      (λ p. off (ap (get (previous_of target)) (sym names) ∙ p)) linked))
          ]

    Stands-keep_copy :
        (d : Disk)
        → (get (previous_of target) d.names ≢ some n) ⊎ (world.fails d.calls ≡ false)
        → Stands q n c (staged_of target) d
        → Stands q n c (staged_of target) (keep_copy world target d).1
    unfolding keep_copy
    Stands-keep_copy d off s =
        elim (bind-cases (ignore (remove_file world (previous_of target)))
          (λ _. link_or_copy world target) d) [
            | inl (e, failed, same) ↦ rw same (Stands-removed d s)
            | inr (a, done, same) ↦
                rw same
                  (Stands-link_or_copy (removed d) (removed-away n d off) (Stands-removed d s))
          ]

    -- A file that stands apart from the two names stays, as long as the old copy is another file or
    -- can be removed.
    pub Stands-keep_previous :
        (d : Disk)
        → (get (previous_of target) d.names ≢ some n) ⊎ (world.fails d.calls ≡ false)
        → Stands q n c (staged_of target) d
        → Stands q n c (staged_of target) (keep_previous world target d).1
    unfolding keep_previous exists ◌>>=◌
    Stands-keep_previous d off s = elim (Option-cases (get target d.names)) [
      | inl absent ↦ rw absent (unfold pure in s)
      | inr (i, there) ↦ rw there (Stands-keep_copy d off s)
    ]
