-- ===== src/Host/Effects.antt =====
-- What an operation does to the files.
use nomctl.Prelude.{
  ◌≡◌, ◌⊎◌, inl, inr, refl, false, some, Text, text_eq, ok, arith, Bool-cases, Option-cases,
}
use nomctl.Prelude.Dict.{get, put, remove}
use nomctl.Host.{Entry, Host, World, damage, write_file, remove_file, read_file, rename}

module _ (world : World) where
  pub write_file-files :
      (p c : Text) (h : Host)
      → ((write_file world p c h).1.files ≡ h.files)
        ⊎ ((x : Entry) × ((write_file world p c h).1.files ≡ put p x h.files))
  unfolding write_file
  write_file-files p c h = elim (Bool-cases (world.fails h.calls)) [
    | inr fine ↦
        inr (record { is_dir = false; content = c; mod_time = world.clock h.calls }, rw fine)
    | inl broken ↦ elim (Option-cases (world.torn h.calls)) [
      | inl whole ↦ inl (rw (broken, damage, whole))
      | inr (t, torn) ↦ inr (
        record { is_dir = false; content = t; mod_time = world.clock h.calls },
        rw (broken, damage, torn),
      )
    ]
  ]

  -- After a write without an error the content is there.
  pub write_file_done :
      (p c : Text) (h : Host)
      → (write_file world p c h).0 ≡ ok tt
      → (x : Entry) × ((write_file world p c h).1.files ≡ put p x h.files)
        × (x.content ≡ c)
        × (x.is_dir ≡ false)
  unfolding write_file
  write_file_done p c h done = elim (Bool-cases (world.fails h.calls)) [
    | inr fine ↦ (
      record { is_dir = false; content = c; mod_time = world.clock h.calls },
      rw fine,
      refl,
      refl,
    )
    | inl broken ↦ absurd (ground arith)
  ]

  pub remove_file-files :
      (p : Text) (h : Host)
      → ((remove_file world p h).1.files ≡ h.files)
        ⊎ ((remove_file world p h).1.files ≡ remove p h.files)
  unfolding remove_file
  remove_file-files p h = ground arith

  pub read_file-files : (p : Text) (h : Host) → (read_file world p h).1.files ≡ h.files
  unfolding read_file
  read_file-files p h = ground arith

  -- What is read is the content of the file.
  pub read_file_done :
      (p c : Text) (h : Host)
      → (read_file world p h).0 ≡ ok c
      → (e : Entry) × (get p h.files ≡ some e) × (e.content ≡ c)
  unfolding read_file
  read_file_done p c h done = elim (Option-cases (get p h.files)) [
    | inl gone ↦ absurd (ground arith)
    | inr (e, there) ↦ (e, there, ground arith)
  ]

  pub rename-files :
      (from to : Text) (h : Host)
      → ((rename world from to h).1.files ≡ h.files)
        ⊎ ((e : Entry) × (get from h.files ≡ some e)
            × ((rename world from to h).1.files ≡ put to e (remove from h.files)))
  unfolding rename
  rename-files from to h = elim (Option-cases (get from h.files)) [
    | inl gone ↦ inl (ground arith)
    | inr (e, there) ↦ elim (Bool-cases (world.fails h.calls)) [
      | inl broken ↦ inl (ground arith)
      | inr fine ↦ inr (e, there, ground arith)
    ]
  ]
