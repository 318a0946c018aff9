-- ===== src/Host/Trees.antt =====
-- Operations on directories, and queries. A directory is one entry; `entries_in` are the entries directly
-- inside one.
use nomctl.Prelude.{
  ℕ, ◌≡◌, ◌≢◌, Bool, true, not, ◌&&◌, Option, none, some, List, [], ◌∷◌, ◌++◌, Text, text_eq,
  eqb_ne, eqb_refl, sym, ok, err, arith, any, drop, keep, length, starts_with, nat_eqb,
  if◌then◌else◌,
}
use nomctl.Prelude.Dict.{Dict, get, put, remove, dict_laws}
use nomctl.Time.{Time}
use nomctl.Host.{Entry, Host, World, Act, io_error, not_exist, next_call, set_files}
use nomctl.Host.Keeps.{Keeps}
use nomctl.Host.Files.{Holds}

abbrev pub join_path : Text → Text → Text
join_path dir name = dir ++ b'/' ∷ name

-- `filepath.Base`: what follows the last slash.
abbrev pub base_from : Text → Text → Text
base_from name [] = name
base_from name (c ∷ s) = if nat_eqb c b'/' then base_from s s else base_from name s

abbrev pub base_name : Text → Text
base_name p = base_from p p

abbrev is_inside : Text → Text → Bool
is_inside dir p =
    starts_with (join_path dir []) p
    && not (any (nat_eqb b'/') (drop (length (join_path dir [])) p))

abbrev pub paths : Dict Text Entry → List Text
paths [] = []
paths ((p, e) ∷ m) = p ∷ paths m

abbrev pub entries_in : Text → Dict Text Entry → List Text
entries_in dir files = keep (is_inside dir) (paths files)

module _ (world : World) where
  -- A call that changes nothing and answers from the state, or fails.
  unfoldable pub query : {A : Type 0} → Text → (Host → A) → Act A
  query e answer h =
      if world.fails h.calls then (err e, next_call h) else (ok (answer h), next_call h)

  -- `time.Now()`
  unfoldable pub get_time : Act Time
  get_time h = (ok (world.clock h.calls), h)

  abbrev tear : ℕ → Text → Dict Text Entry → Dict Text Entry
  tear n p files = elim (world.torn n) [
    | none ↦ files
    | some t ↦ put p (record { is_dir = true; content = t; mod_time = world.clock n }) files
  ]

  -- A directory with all that is in it, written by a program that can stop in the middle.
  unfoldable pub write_tree : Text → Text → Act Unit
  write_tree p content h =
      if world.fails h.calls
      then (err io_error, set_files (next_call h) (tear h.calls p h.files))
      else (
        ok tt,
        set_files (next_call h) (
            put p (record { is_dir = true; content = content; mod_time = world.clock h.calls })
              h.files),
      )

  -- `cp -a`
  unfoldable pub copy_tree : Text → Text → Act Unit
  copy_tree from to h = elim (get from h.files) [
    | none ↦ (err not_exist, next_call h)
    | some e ↦ write_tree to e.content h
  ]

  -- `mv`, also to another file system, where a copy that stops leaves a part at the destination.
  unfoldable pub move_tree : Text → Text → Act Unit
  move_tree from to h = elim (get from h.files) [
    | none ↦ (err not_exist, next_call h)
    | some e ↦
        if world.fails h.calls
        then (err io_error, set_files (next_call h) (tear h.calls to h.files))
        else (ok tt, set_files (next_call h) (put to e (remove from h.files)))
  ]

  module _ (q : Text) (o : Option Entry) where
    pub Holds-query :
        {A : Type 0} (e : Text) (answer : Host → A) → Keeps (Holds q o) (query e answer)
    unfolding query
    Holds-query e answer = record { at = λ h x. ground arith }

    pub Holds-get_time : Keeps (Holds q o) get_time
    unfolding get_time
    Holds-get_time = record { at = λ h x. x }

    pub Holds-write_tree : (p c : Text) → p ≢ q → Keeps (Holds q o) (write_tree p c)
    unfolding write_tree
    Holds-write_tree p c ne = record { at = λ h x. grind (arith, dict_laws, eqb_ne p q ne) }

    pub Holds-copy_tree : (from to : Text) → to ≢ q → Keeps (Holds q o) (copy_tree from to)
    unfolding copy_tree write_tree
    Holds-copy_tree from to ne = record { at = λ h x. grind (arith, dict_laws, eqb_ne to q ne) }

    pub Holds-move_tree :
        (from to : Text) → from ≢ q → to ≢ q → Keeps (Holds q o) (move_tree from to)
    unfolding move_tree
    Holds-move_tree from to ne ne' = record {
      at = λ h x. grind (arith, dict_laws, eqb_ne from q ne, eqb_ne to q ne');
    }

module _ (world : World) where
  -- A move that fails leaves its source.
  pub move_tree_failed :
      (from to : Text) (h : Host) (x : Text)
      → from ≢ to
      → (move_tree world from to h).0 ≡ err x
      → get from (move_tree world from to h).1.files ≡ get from h.files
  unfolding move_tree
  move_tree_failed from to h x ne failed =
      grind (arith, dict_laws, eqb_ne to from (λ q. ne (sym q)))

  -- A move that succeeds takes the entry along.
  pub move_tree_done :
      (from to : Text) (h : Host)
      → (move_tree world from to h).0 ≡ ok tt
      → get to (move_tree world from to h).1.files ≡ get from h.files
  unfolding move_tree
  move_tree_done from to h done = grind (arith, dict_laws, eqb_refl to)

pub ruleset trees_rules =
    (Holds-query, Holds-get_time, Holds-write_tree, Holds-copy_tree, Holds-move_tree)
