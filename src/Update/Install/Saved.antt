-- ===== src/Update/Install/Saved.antt =====
-- The old program under the name of its copy, in `Replace` of internal/update/update.go.
use nomctl.Prelude.{
  ℕ, ◌≡◌, ◌≢◌, ◌⊎◌, inl, inr, ap, ◌∙◌, sym, false, some, Text, text_eq, Result, ok, arith,
  Option-cases,
}
use nomctl.Prelude.Dict.{get, get-put_same, get-put_other}
use nomctl.Host.{World, ◌>>=◌, ignore}
use nomctl.Host.Keeps.{bind_done, or_else-cases}
use nomctl.Update.Disk.{Disk, fresh, inode_at, exists, copy_file, link, remove_file}
use nomctl.Update.Disk.Apart.{Stands, fresh-bound}
use nomctl.Update.Disk.Done.{
  copy_file_done, link_done, link_failed, ignore-state, remove_file-gone, remove_file-away,
  remove_file-same,
}
use nomctl.Update.Install.{previous_of, staged_of, link_or_copy, keep_copy, keep_previous}
use nomctl.Update.Install.Kept.{
  previous_ne, staged_ne_previous, removed, removed-away, Stands-removed,
}

abbrev pub result_of : Result Text (Unit {0}) × Disk → Result Text (Unit {0})
result_of r = r.0

module _ (world : World) (target : Text) where
  abbrev pub StandsBeside : ℕ → Text → Disk → Type 0
  StandsBeside i c = Stands target i c (staged_of target)

  -- The old program under the name of its copy.
  abbrev pub IsSaved : Text → Disk → Type 0
  IsSaved c d = (p : ℕ) × Stands (previous_of target) p c (staged_of target) d

  -- The name of the copy does not lead to the staged file.
  abbrev pub AreApart : Disk → Type 0
  AreApart d =
      (p : ℕ) → get (previous_of target) d.names ≡ some p → get (staged_of target) d.names ≢ some p

  IsSaved-by_link :
      (i : ℕ) (c : Text) (d : Disk)
      → StandsBeside i c d
      → (link world target (previous_of target) d).0 ≡ ok tt
      → IsSaved c (link world target (previous_of target) d).1
  IsSaved-by_link i c d s done =
      let (names, held) = link_done world target (previous_of target) i d s.at done in
      (
        i,
        record {
          at = rw names (get-put_same (previous_of target) i d.names);
          text = rw held s.text;
          away = λ h. s.away (
              sym (
                get-put_other (previous_of target) (staged_of target) i d.names
                  (λ p. staged_ne_previous target (sym p)))
              ∙ ap (get (staged_of target)) (sym names)
              ∙ h);
        },
      )

  -- A copy instead of the link.
  IsSaved-by_copy :
      (i : ℕ) (c : Text) (d : Disk)
      → StandsBeside i c d
      → get (previous_of target) d.names ≢ some i
      → AreApart d
      → (copy_file world target (previous_of target) d).0 ≡ ok tt
      → IsSaved c (copy_file world target (previous_of target) d).1
  IsSaved-by_copy i c d s off apart done =
      let j = inode_at (previous_of target) d in
      let (names, text) =
        copy_file_done world target (previous_of target) i c d
          (record { at = s.at; text = s.text; away = off }) done in
      let free : get (staged_of target) d.names ≢ some j = λ h.
        elim (Option-cases (get (previous_of target) d.names)) [
          | inl absent ↦
              (let h' = rw (inode_at, absent) at h in
                let bound = fresh-bound (staged_of target) (fresh d.names) d.names h' in
                ground arith)
          | inr (p, there) ↦ apart p there (rw (inode_at, there) at h)
        ] in
      (
        j,
        record {
          at = rw names (get-put_same (previous_of target) j d.names);
          text = text;
          away = λ h. free (
              sym (
                get-put_other (previous_of target) (staged_of target) j d.names
                  (λ p. staged_ne_previous target (sym p)))
              ∙ ap (get (staged_of target)) (sym names)
              ∙ h);
        },
      )

  IsSaved-by_either :
      (i : ℕ) (c : Text) (d : Disk)
      → StandsBeside i c d
      → get (previous_of target) d.names ≢ some i
      → AreApart d
      → (link_or_copy world target d).0 ≡ ok tt
      → IsSaved c (link_or_copy world target d).1
  unfolding link_or_copy
  IsSaved-by_either i c d s off apart x =
      elim (or_else-cases (link world target (previous_of target))
        (λ _. copy_file world target (previous_of target)) d) [
          | inl (a, done, same) ↦ rw same (IsSaved-by_link i c d s done)
          | inr (e, failed, same) ↦
              (let d' = (link world target (previous_of target) d).1 in
                let (names, held) = link_failed world target (previous_of target) d e failed in
                rw same (
                  IsSaved-by_copy i c d'
                    (record { at = rw names s.at; text = rw held s.text; away = rw names s.away })
                    (rw names off) (rw names apart) (ap result_of (sym same) ∙ x)))
        ]

  removed-apart :
      (d : Disk) → AreApart d ⊎ (world.fails d.calls ≡ false) → AreApart (removed world target d)
  removed-apart d ok_before p h =
      let state = ignore-state (remove_file world (previous_of target)) d in
      let h' = ap (λ (e : Disk). get (previous_of target) e.names) (sym state) ∙ h in
      elim ok_before [
        | inr fine ↦
            (let q = sym (remove_file-gone world (previous_of target) d fine) ∙ h' in
              absurd (ground arith))
        | inl apart ↦ λ g.
            remove_file-away world (previous_of target) (staged_of target) p d
              (apart p (remove_file-same world (previous_of target) (previous_of target) p d h'))
              (ap (λ (e : Disk). get (staged_of target) e.names) (sym state) ∙ g)
      ]

  -- Where there was a program, its link or copy has its content.
  pub keep_previous-IsSaved :
      (i : ℕ) (c : Text) (d : Disk)
      → StandsBeside i c d
      → ((get (previous_of target) d.names ≢ some i) × AreApart d) ⊎ (world.fails d.calls ≡ false)
      → (keep_previous world target d).0 ≡ ok tt
      → IsSaved c (keep_previous world target d).1
  unfolding keep_previous keep_copy exists ◌>>=◌
  keep_previous-IsSaved i c d s before x =
      let same : keep_previous world target d ≡ keep_copy world target d = rw s.at in
      let (a, done, same') =
        bind_done (ignore (remove_file world (previous_of target))) (λ _. link_or_copy world target)
          d tt (ap result_of (sym same) ∙ x) in
      let off : (get (previous_of target) d.names ≢ some i) ⊎ (world.fails d.calls ≡ false) =
        elim before [ inl (off, apart) ↦ inl off | inr fine ↦ inr fine ] in
      let apart : AreApart d ⊎ (world.fails d.calls ≡ false) = elim before [
        | inl (off, apart) ↦ inl apart
        | inr fine ↦ inr fine
      ] in
      rw (same ∙ same') (
        IsSaved-by_either i c _ (Stands-removed world target target i c (previous_ne target) d s)
          (removed-away world target i d off) (removed-apart d apart)
          (ap result_of (sym (same ∙ same')) ∙ x))
