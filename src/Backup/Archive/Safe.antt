-- ===== src/Backup/Archive/Safe.antt =====
-- `writeArchive` of internal/backup/backup.go, and the digest of an archive.
use nomctl.Prelude.{◌≡◌, inl, inr, ap, sym, ◌∙◌, some, ◌++◌, Text, text_eq, Result, ok, arith}
use nomctl.Prelude.Dict.{get}
use nomctl.AlertProto.Sign.{hex_encode}
use nomctl.Host.{Entry, Host, World, ◌>>=◌, pure, or_else, ignore, read_file, remove_file}
use nomctl.Host.Keeps.{Keeps, keeps_rules, bind-cases, or_else_done, bind_done, bind-raise_fails}
use nomctl.Host.Effects.{read_file-files, read_file_done}
use nomctl.Backup.{Tools, tar_gz}
use nomctl.Backup.Archive.{
  partial_of, sha256_file, pack, drop_partial, digest_partial, write_archive,
}
use nomctl.Backup.Archive.Sound.{IsSound, IsNoFile}
use nomctl.Backup.Archive.Write.{
  IsReady, drop_partial-IsReady, pack-IsReady, digest_partial-IsReady, write_rest, write_rest_lem,
}

module _ (world : World) (tools : Tools) where
  -- A digest that is computed is that of the file, and no file changes.
  pub sha256_file_done :
      (p sum : Text) (h : Host)
      → (sha256_file world tools p h).0 ≡ ok sum
      → (e : Entry) × (get p h.files ≡ some e)
        × (sum ≡ hex_encode (tools.sha256 e.content))
        × ((sha256_file world tools p h).1.files ≡ h.files)
  unfolding pure
  sha256_file_done p sum h x =
      let (c, done, same) =
        bind_done (read_file world p) (λ c. pure (hex_encode (tools.sha256 c))) h sum x in
      let (e, there, content) = read_file_done world p c h done in
      let y : ok (hex_encode (tools.sha256 c)) ≡ ok sum =
        ap (λ (r : Result Text Text × Host). r.0) (sym same) ∙ x in
      let z : hex_encode (tools.sha256 c) ≡ sum = ground arith in
      (
        e,
        there,
        sym z ∙ ap (λ t. hex_encode (tools.sha256 t)) (sym content),
        ap (λ (r : Result Text Text × Host). r.1.files) same ∙ read_file-files world p h,
      )

  module _ (dir base : Text) where
    abbrev partial : Text
    partial = partial_of (base ++ tar_gz)

    write_digest :
        (h : Host)
        → IsReady world tools base h
        → IsSound tools
            ((digest_partial world tools (base ++ tar_gz) >>= write_rest world tools base)
              h).1.files
    write_digest h ready =
        let digest = digest_partial world tools (base ++ tar_gz) in
        elim (bind-cases digest (write_rest world tools base) h) [
          | inl (x, failed, same) ↦ rw same ((digest_partial-IsReady world tools base).at h ready).1
          | inr (sum, done, same) ↦
              (let (computed, as_computed) =
                  or_else_done (sha256_file world tools partial)
                    (drop_partial world tools (base ++ tar_gz)) h sum
                    (λ x g. bind-raise_fails (ignore (remove_file world partial)) x g sum) done in
                let (e, there, is_digest, unchanged) = sha256_file_done partial sum h computed in
                let now : (digest h).1.files ≡ h.files =
                  ap (λ (r : Result Text Text × Host). r.1.files) as_computed ∙ unchanged in
                rw same (
                  write_rest_lem world tools base (digest h).1 e sum
                    ((digest_partial-IsReady world tools base).at h ready)
                    (ap (get partial) now ∙ there) is_digest))
        ]

-- Writing an archive, whatever fails on the way, leaves each archive that has a hash file with its own
-- digest in it, where no file had the archive's name before.
pub write_archive-IsSound :
    (world : World) (tools : Tools) (dir base : Text) (h : Host)
    → IsNoFile (base ++ tar_gz) h.files
    → IsSound tools h.files
    → IsSound tools (write_archive world tools dir (base ++ tar_gz) h).1.files
unfolding write_archive
write_archive-IsSound world tools dir base h gone sound =
    let first =
      or_else (pack world tools dir (partial_of (base ++ tar_gz)))
        (drop_partial world tools (base ++ tar_gz)) in
    let kept : Keeps (IsReady world tools base) first =
      search (keeps_rules, pack-IsReady, drop_partial-IsReady) depth 6 in
    elim (bind-cases first
      (λ _. digest_partial world tools (base ++ tar_gz) >>= write_rest world tools base) h) [
        | inl (x, failed, same) ↦ rw same (kept.at h (gone, sound)).1
        | inr (a, done, same) ↦
            rw same (write_digest world tools dir base (first h).1 (kept.at h (gone, sound)))
      ]
