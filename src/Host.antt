-- ===== src/Host.antt =====
-- The machine that the commands act on: files, services and calls that can fail. The operations are
-- those of Go's package os and of systemctl as the program uses them. A directory is one entry, whose
-- content stands for the whole tree below it.
pub mod Keeps
pub mod Files
pub mod Trees
pub mod Effects
pub mod Leads
use nomctl.Prelude.{
  ℕ, suc, ◌+◌, Bool, true, false, Option, none, some, List, [], ◌∷◌, Text, bytes, text_eq, Result,
  ok, err, if◌then◌else◌,
}
use nomctl.Prelude.Dict.{Dict, get, put, remove}
use nomctl.Time.{Time}

pub record Entry : Type 0 where
  pub is_dir : Bool
  pub content : Text
  pub mod_time : Time

-- `calls` counts the operations that were tried.
pub record Host : Type 0 where
  pub files : Dict Text Entry
  pub running : Dict Text Bool
  pub calls : ℕ

-- What the machine does at the n-th call: whether it fails, what a failed write leaves of its
-- destination (none: what was there), and the time.
pub record World : Type 0 where
  pub fails : ℕ → Bool
  pub torn : ℕ → Option Text
  pub clock : ℕ → Time

-- What was done before an error stays done.
abbrev pub Fallible : Type 0 → Type 0 → Type 0
Fallible S A = S → Result Text A × S

abbrev pub Act : Type 0 → Type 0
Act A = Fallible Host A

module _ {S A : Type 0} where
  unfoldable pub pure : A → Fallible S A
  pure a h = (ok a, h)

  unfoldable pub raise : Text → Fallible S A
  raise e h = (err e, h)

  abbrev handle : Result Text A → (Text → Fallible S A) → Fallible S A
  handle (ok a) f h = (ok a, h)
  handle (err e) f h = f e h

  -- What follows an error; the state is as the failed action left it.
  unfoldable pub or_else : Fallible S A → (Text → Fallible S A) → Fallible S A
  unfolding pure raise
  or_else m f h = let (r, h') = m h in handle r f h'

module _ {S A B : Type 0} where
  abbrev continue : Result Text A → (A → Fallible S B) → Fallible S B
  continue (ok a) f h = f a h
  continue (err e) f h = (err e, h)

  infixl 10 ◌>>=◌ ◌>>◌
  unfoldable pub ◌>>=◌ : Fallible S A → (A → Fallible S B) → Fallible S B
  unfolding pure raise
  ◌>>=◌ m f h = let (r, h') = m h in continue r f h'

  abbrev pub ◌>>◌ : Fallible S A → Fallible S B → Fallible S B
  m >> n = m >>= λ _. n

-- An error that the program does not look at.
abbrev pub ignore : {S : Type 0} → Fallible S Unit → Fallible S Unit
ignore m = or_else m (λ e. pure tt)

-- The error of an action as a value.
abbrev pub attempt : {S : Type 0} → Fallible S Unit → Fallible S (Option Text)
attempt m = or_else (m >> pure none) (λ e. pure (some e))

abbrev pub is_there : {A : Type 0} → Option A → Bool
is_there none = false
is_there (some _) = true

abbrev pub is_dir_entry : Option Entry → Bool
is_dir_entry none = false
is_dir_entry (some e) = e.is_dir

-- `os.Stat` without an error, and `fsx.IsDir`.
unfoldable pub exists : Text → Act Bool
exists p h = (ok (is_there (get p h.files)), h)

unfoldable pub is_dir : Text → Act Bool
is_dir p h = (ok (is_dir_entry (get p h.files)), h)

abbrev pub io_error : Text
io_error = bytes "input/output error"

abbrev pub not_exist : Text
not_exist = bytes "file does not exist"

abbrev pub next_call : Host → Host
next_call h = record h { calls = suc h.calls }

abbrev pub set_files : Host → Dict Text Entry → Host
set_files h files = record h { files = files }

module _ (world : World) where
  -- What a failed write leaves at its destination.
  abbrev pub damage : ℕ → Text → Dict Text Entry → Dict Text Entry
  damage n p files = elim (world.torn n) [
    | none ↦ files
    | some t ↦ put p (record { is_dir = false; content = t; mod_time = world.clock n }) files
  ]

  -- `os.Rename`: it fails as a whole.
  unfoldable pub rename : Text → Text → Act Unit
  rename from to h =
      if world.fails h.calls then (err io_error, next_call h) else (elim (get from h.files) [
        | none ↦ (err not_exist, next_call h)
        | some e ↦ (ok tt, set_files (next_call h) (put to e (remove from h.files)))
      ])

  -- `os.WriteFile`
  unfoldable pub write_file : Text → Text → Act Unit
  write_file p content h =
      if world.fails h.calls
      then (err io_error, set_files (next_call h) (damage h.calls p h.files))
      else (
        ok tt,
        set_files (next_call h) (
            put p (record { is_dir = false; content = content; mod_time = world.clock h.calls })
              h.files),
      )

  -- `os.Remove` of a file.
  unfoldable pub remove_file : Text → Act Unit
  remove_file p h =
      if world.fails h.calls then (err io_error, next_call h) else (elim (get p h.files) [
        | none ↦ (err not_exist, next_call h)
        | some _ ↦ (ok tt, set_files (next_call h) (remove p h.files))
      ])

  abbrev shrink : Entry → Option Text → Text → Dict Text Entry → Dict Text Entry
  shrink e none p files = files
  shrink e (some t) p files = if e.is_dir then put p (record e { content = t }) files else files

  -- What a failed removal leaves of an entry: a part of a directory, or the whole file.
  abbrev remains : ℕ → Text → Dict Text Entry → Dict Text Entry
  remains n p files = elim (get p files) [ none ↦ files | some e ↦ shrink e (world.torn n) p files ]

  -- `os.RemoveAll`: what is not there is no error; a failure can leave a part.
  unfoldable pub remove_all : Text → Act Unit
  remove_all p h =
      if world.fails h.calls
      then (err io_error, set_files (next_call h) (remains h.calls p h.files))
      else (ok tt, set_files (next_call h) (remove p h.files))

  -- `os.ReadFile`
  unfoldable pub read_file : Text → Act Text
  read_file p h =
      if world.fails h.calls then (err io_error, next_call h) else (elim (get p h.files) [
        | none ↦ (err not_exist, next_call h)
        | some e ↦ (ok e.content, next_call h)
      ])

  -- `os.MkdirAll`, of which only a failure is seen: the directories above the entries are not modelled.
  unfoldable pub make_dirs : Text → Act Unit
  make_dirs p h = (if world.fails h.calls then err io_error else ok tt, next_call h)

  -- `systemctl start` and `systemctl stop` of a service.
  unfoldable pub set_service : Bool → Text → Act Unit
  set_service on name h =
      if world.fails h.calls
      then (err (bytes "systemctl failed"), next_call h)
      else (ok tt, record (next_call h) { running = put name on h.running })
