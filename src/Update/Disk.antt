-- ===== src/Update/Disk.antt =====
-- The files that internal/update/update.go works on, where two names can stand for one file: the operations of
-- Go's package os that `Replace` and `Rollback` call, and `copyFile`.
pub mod Apart
pub mod Done
use nomctl.Prelude.{
  ℕ, suc, ◌+◌, Bool, Option, none, some, List, [], ◌∷◌, Text, bytes, text_eq, nat_eqb, ltb, Result,
  ok, err, if◌then◌else◌,
}
use nomctl.Prelude.Dict.{Dict, get, put, remove}
use nomctl.Host.{World, Fallible, is_there, io_error, not_exist}

-- A name leads to an inode, and the inode to the content. `calls` counts the operations that were tried.
pub record Disk : Type 0 where
  pub names : Dict Text ℕ
  pub held : ℕ → Text
  pub calls : ℕ

abbrev pub Act : Type 0 → Type 0
Act A = Fallible Disk A

abbrev pub next_call : Disk → Disk
next_call d = record d { calls = suc d.calls }

abbrev pub set_names : Dict Text ℕ → Disk → Disk
set_names names d = record (next_call d) { names = names }

-- An inode that no name leads to.
unfoldable pub fresh : Dict Text ℕ → ℕ
fresh [] = 0
fresh ((p, i) ∷ names) = let rest = fresh names in if ltb i rest then rest else suc i

-- The inode that `os.OpenFile` with O_CREATE opens.
abbrev pub inode_at : Text → Disk → ℕ
inode_at p d = elim (get p d.names) [ none ↦ fresh d.names | some i ↦ i ]

abbrev pub held_put : ℕ → Text → (ℕ → Text) → ℕ → Text
held_put i t held j = if nat_eqb i j then t else held j

-- What a name shows once its file was opened for writing and holds this text.
abbrev pub with_text : Text → Text → Disk → Disk
with_text p t d = record (set_names (put p (inode_at p d) d.names) d) {
  held = held_put (inode_at p d) t d.held;
}

-- `os.Stat` without an error.
unfoldable pub exists : Text → Act Bool
exists p d = (ok (is_there (get p d.names)), d)

-- `os.ReadFile`, or none where the name is not taken.
unfoldable pub content : Text → Disk → Option Text
content p d = elim (get p d.names) [ none ↦ none | some i ↦ some (d.held i) ]

-- What is copied: the destination is emptied before the source is read.
abbrev pub copied : ℕ → Text → Disk → Text
copied i to d = if nat_eqb i (inode_at to d) then [] else d.held i

-- A failed copy leaves the destination as it was, or opened and with any part of a text.
abbrev pub torn_copy : Text → Disk → Option Text → Disk
torn_copy to d none = next_call d
torn_copy to d (some t) = with_text to t d

module _ (world : World) where
  -- `os.Rename`: two names of one file stay as they are.
  unfoldable pub rename : Text → Text → Act Unit
  rename from to d =
      if world.fails d.calls then (err io_error, next_call d) else (elim (get from d.names) [
        | none ↦ (err not_exist, next_call d)
        | some i ↦
            if nat_eqb i (inode_at to d)
            then (ok tt, next_call d)
            else (ok tt, set_names (put to i (remove from d.names)) d)
      ])

  -- `os.Link`: the new name leads to the same file; it fails where the name is taken.
  unfoldable pub link : Text → Text → Act Unit
  link from to d =
      if world.fails d.calls then (err io_error, next_call d) else (elim (get from d.names) [
        | none ↦ (err not_exist, next_call d)
        | some i ↦ elim (get to d.names) [
          | some _ ↦ (err (bytes "file exists"), next_call d)
          | none ↦ (ok tt, set_names (put to i d.names) d)
        ]
      ])

  -- `os.Remove`
  unfoldable pub remove_file : Text → Act Unit
  remove_file p d =
      if world.fails d.calls then (err io_error, next_call d) else (elim (get p d.names) [
        | none ↦ (err not_exist, next_call d)
        | some _ ↦ (ok tt, set_names (remove p d.names) d)
      ])

  -- `copyFile`
  unfoldable pub copy_file : Text → Text → Act Unit
  copy_file from to d = elim (get from d.names) [
    | none ↦ (err not_exist, next_call d)
    | some i ↦
        if world.fails d.calls
        then (err io_error, torn_copy to d (world.torn d.calls))
        else (ok tt, with_text to (copied i to d) d)
  ]
