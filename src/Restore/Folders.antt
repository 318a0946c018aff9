-- ===== src/Restore/Folders.antt =====
-- The paths of internal/restore/restore.go: the folders, their safety copies, and the staged ones.
use nomctl.Prelude.{
  ℕ, ◌≡◌, ◌≢◌, ◌<◌, ◌≤◌, ap, sym, ◌∙◌, ◌⊎◌, inl, inr, ◌∷◌, ◌++◌, Text, bytes, text_eq, arith, drop,
  append_ne, append_assoc, last_or, last_or-append, last_or-format_nat, format_int, ℤ, pos, negsuc,
  suc,
}
use nomctl.Host.Trees.{join_path}
use nomctl.Backup.Archive.Sound.{append-cancel}
use nomctl.Restore.{Places, home, aside, unix_of}

abbrev pub IsFolder : Text → Type 0
IsFolder f =
    (f ≡ bytes "nom") ⊎ (f ≡ bytes "network") ⊎ (f ≡ bytes "consensus") ⊎ (f ≡ bytes "cache")

-- A folder's name ends with a letter, and does not begin with a dot.
letter_last : (d : ℕ) (f : Text) → IsFolder f → 97 ≤ last_or d f
letter_last d f (inl e) = rw e (omega arith)
letter_last d f (inr (inl e)) = rw e (omega arith)
letter_last d f (inr (inr (inl e))) = rw e (omega arith)
letter_last d f (inr (inr (inr e))) = rw e (omega arith)

no_dot_first : (f s : Text) → IsFolder f → f ≢ b'.' ∷ s
no_dot_first f s (inl i) e = ground arith
no_dot_first f s (inr (inl i)) e = ground arith
no_dot_first f s (inr (inr (inl i))) e = ground arith
no_dot_first f s (inr (inr (inr i))) e = ground arith

last_or-format_int : (d : ℕ) (z : ℤ) → last_or d (format_int z) < 58
unfolding format_int
last_or-format_int d (pos n) = last_or-format_nat d n
last_or-format_int d (negsuc n) = last_or-format_nat b'-' (suc n)

module _ (at : Places) where
  last-aside : (stamp : ℕ) (g : Text) → last_or 0 (aside at stamp g) < 58
  last-aside stamp g =
      let front =
        last_or-append 0 b'/' at.restore_dir (g ++ (bytes ".bak." ++ format_int (unix_of stamp))) in
      let back = last_or-append b'/' b'.' g (bytes "bak." ++ format_int (unix_of stamp)) in
      rw (front, back) (last_or-format_int b'.' (unix_of stamp))

  pub home-aside : (stamp : ℕ) (f g : Text) → IsFolder f → home at f ≢ aside at stamp g
  home-aside stamp f g is e =
      let letter : 97 ≤ last_or 0 (home at f) =
        rw (last_or-append 0 b'/' at.znn_dir f) (letter_last b'/' f is) in
      let digit : last_or 0 (home at f) < 58 = rw e (last-aside stamp g) in omega arith

  pub home-home : (f g : Text) → f ≢ g → home at f ≢ home at g
  home-home f g ne = append_ne at.znn_dir _ _ (λ e. ne (ap (drop 1) e))

  pub aside-aside : (stamp : ℕ) (f g : Text) → f ≢ g → aside at stamp f ≢ aside at stamp g
  aside-aside stamp f g ne = append_ne at.restore_dir _ _ (λ e.
      ne (append-cancel f g b'.' (bytes "bak." ++ format_int (unix_of stamp)) (ap (drop 1) e)))

  pub staged_aside :
      (stamp : ℕ) (suffix f g : Text)
      → IsFolder f
      → join_path (join_path at.znn_dir (bytes ".restore-" ++ suffix)) f ≢ aside at stamp g
  staged_aside stamp suffix f g is e =
      let staging = join_path at.znn_dir (bytes ".restore-" ++ suffix) in
      let letter : 97 ≤ last_or 0 (join_path staging f) =
        rw (last_or-append 0 b'/' staging f) (letter_last b'/' f is) in
      let digit : last_or 0 (join_path staging f) < 58 = rw e (last-aside stamp g) in omega arith

  pub staged_home :
      (suffix f g : Text)
      → IsFolder g
      → join_path (join_path at.znn_dir (bytes ".restore-" ++ suffix)) f ≢ home at g
  staged_home suffix f g is e =
      let moved : at.znn_dir ++ b'/' ∷ (bytes ".restore-" ++ suffix ++ b'/' ∷ f)
          ≡ at.znn_dir ++ b'/' ∷ g =
        sym (append_assoc at.znn_dir (b'/' ∷ (bytes ".restore-" ++ suffix)) (b'/' ∷ f)) ∙ e in
      append_ne at.znn_dir _ _
        (λ q. no_dot_first g (bytes "restore-" ++ suffix ++ b'/' ∷ f) is (ap (drop 1) (sym q)))
        moved
