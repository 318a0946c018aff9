-- ===== src/Update/Disk/Done.antt =====
-- What the operations of a disk do where they succeed, and what they leave where they fail.
use nomctl.Prelude.{
  ℕ, ◌≡◌, ◌≢◌, inl, inr, refl, ◌∙◌, ap, true, false, none, some, Text, text_eq, ok, err, arith,
  eqb_refl, nat_eqb, Bool-cases, Option-cases,
}
use nomctl.Prelude.Dict.{get, put, remove, get-put, dict_laws}
use nomctl.Host.{World, ignore, pure}
use nomctl.Host.Keeps.{or_else-cases}
use nomctl.Update.Disk.{Act, Disk, inode_at, content, rename, link, remove_file, copy_file}
use nomctl.Update.Disk.Apart.{Stands, fresh-bound, inode_at_ne}

-- An ignored error leaves what the action left.
pub ignore-state : (m : Act Unit) (d : Disk) → (ignore m d).1 ≡ (m d).1
ignore-state m d = elim (or_else-cases m (λ e. pure tt) d) [
  | inl (a, done, same) ↦ ap (λ r. r.1) same
  | inr (e, failed, same) ↦ ap (λ r. r.1) same ∙ (unfold pure in refl)
]

pub content-at :
    (q : Text) (n : ℕ) (d : Disk) → get q d.names ≡ some n → content q d ≡ some (d.held n)
unfolding content
content-at q n d there = rw (content, there) refl

module _ (world : World) where
  -- A copy that succeeds has the content of its source, where the two are not one file.
  pub copy_file_done :
      (from to : Text) (n : ℕ) (c : Text) (d : Disk)
      → Stands from n c to d
      → (copy_file world from to d).0 ≡ ok tt
      → ((copy_file world from to d).1.names ≡ put to (inode_at to d) d.names)
        × ((copy_file world from to d).1.held (inode_at to d) ≡ c)
  unfolding copy_file
  copy_file_done from to n c d s x = elim (Bool-cases (world.fails d.calls)) [
    | inl broken ↦ absurd (let at = s.at in ground arith)
    | inr fine ↦
        (let other = inode_at_ne from to n d s.at s.away in
          let same : nat_eqb n (inode_at to d) ≡ false = ground arith in
          let itself : nat_eqb (inode_at to d) (inode_at to d) ≡ true = ground arith in
          (rw (copy_file, s.at, fine) refl, rw (copy_file, s.at, fine, itself, same) s.text))
  ]

  pub copy_file-content :
      (from to : Text) (n : ℕ) (c : Text) (d : Disk)
      → Stands from n c to d
      → (copy_file world from to d).0 ≡ ok tt
      → content to (copy_file world from to d).1 ≡ some c
  unfolding content
  copy_file-content from to n c d s x =
      let (names, text) = copy_file_done from to n c d s x in
      let there : get to (copy_file world from to d).1.names ≡ some (inode_at to d) =
        rw names (ground (arith, get-put to to (inode_at to d) d.names, eqb_refl to)) in
      rw (content, there) (ap some text)

  -- After a renaming the new name has the content of the old one, also where the two were one file.
  pub rename-content :
      (from to : Text) (d : Disk)
      → (rename world from to d).0 ≡ ok tt
      → content to (rename world from to d).1 ≡ content from d
  unfolding rename content
  rename-content from to d x = elim (Option-cases (get from d.names)) [
    | inl gone ↦ absurd (ground arith)
    | inr (i, there) ↦ grind (
      arith,
      get-put to to i (remove from d.names),
      eqb_refl to,
      fresh-bound from i d.names there,
    )
  ]

  pub rename_failed :
      (from to : Text) (d : Disk) (e : Text)
      → (rename world from to d).0 ≡ err e
      → ((rename world from to d).1.names ≡ d.names) × ((rename world from to d).1.held ≡ d.held)
  unfolding rename
  rename_failed from to d e x = (ground arith, ground arith)

  pub link_failed :
      (from to : Text) (d : Disk) (e : Text)
      → (link world from to d).0 ≡ err e
      → ((link world from to d).1.names ≡ d.names) × ((link world from to d).1.held ≡ d.held)
  unfolding link
  link_failed from to d e x = (ground arith, ground arith)

  -- A link leads to the file of the name it was made from.
  pub link_done :
      (from to : Text) (n : ℕ) (d : Disk)
      → get from d.names ≡ some n
      → (link world from to d).0 ≡ ok tt
      → ((link world from to d).1.names ≡ put to n d.names)
        × ((link world from to d).1.held ≡ d.held)
  unfolding link
  link_done from to n d there x = (ground arith, ground arith)

  -- Where its call does not fail, a removal leaves no entry under the name.
  pub remove_file-gone :
      (p : Text) (d : Disk)
      → world.fails d.calls ≡ false
      → get p (remove_file world p d).1.names ≡ none
  unfolding remove_file
  remove_file-gone p d fine = grind (arith, dict_laws, eqb_refl p)

  -- A removal leads no name to another file.
  pub remove_file-away :
      (p q : Text) (n : ℕ) (d : Disk)
      → get q d.names ≢ some n
      → get q (remove_file world p d).1.names ≢ some n
  unfolding remove_file
  remove_file-away p q n d away h = away (grind (arith, dict_laws))

  -- A name that a removal leaves led to the same file before.
  pub remove_file-same :
      (p q : Text) (n : ℕ) (d : Disk)
      → get q (remove_file world p d).1.names ≡ some n
      → get q d.names ≡ some n
  unfolding remove_file
  remove_file-same p q n d h = grind (arith, dict_laws)
