-- ===== src/Backup/Archive/Done.antt =====
-- `writeArchive` of internal/backup/backup.go where it ends without an error.
use nomctl.Prelude.{
  ◌≡◌, ◌≢◌, ◌∙◌, ap, sym, some, ◌++◌, Text, bytes, text_eq, last_or, last_or-append, Result, ok,
  arith,
}
use nomctl.Prelude.Dict.{get, put, get-put_other, get-put_same}
use nomctl.AlertProto.Sign.{hex_encode}
use nomctl.Host.{
  Entry, Host, World, Act, ◌>>=◌, ◌>>◌, or_else, ignore, rename, write_file, remove_file,
}
use nomctl.Host.Keeps.{or_else_done, bind_done, bind-raise_fails}
use nomctl.Host.Files.{Holds-rename, rename_done}
use nomctl.Host.Effects.{write_file_done}
use nomctl.Backup.{Tools, tar_gz, hash_path}
use nomctl.Backup.Archive.{
  partial_of, sha256_file, pack, drop_partial, digest_partial, drop_both, write_archive,
}
use nomctl.Backup.Archive.Sound.{seal, hash_ne, hash_path-append}
use nomctl.Backup.Archive.Write.{partial, partial_other, write_rest}
use nomctl.Backup.Archive.Safe.{sha256_file_done}

module _ (world : World) (tools : Tools) (base : Text) where
  -- The archive and its hash file are there, and the digest is that of the archive.
  abbrev pub IsSealed : Host → Type 0
  IsSealed h =
      (e : Entry) × (s : Entry) × (get (base ++ tar_gz) h.files ≡ some e)
      × (get (base ++ bytes ".hash") h.files ≡ some s)
      × (s.content ≡ seal tools e.content)

  abbrev place : Act Unit
  place =
      or_else (rename world (partial world tools base) (base ++ tar_gz))
        (drop_both world tools (base ++ tar_gz))

  partial_hash : partial world tools base ≢ base ++ bytes ".hash"
  partial_hash q =
      partial_other world tools base b'h' (λ r. ground arith)
        (ap (last_or 0) q ∙ last_or-append 0 b'.' base (bytes "hash"))

  place_done :
      (h : Host) (e s : Entry)
      → (place h).0 ≡ ok tt
      → get (partial world tools base) h.files ≡ some e
      → get (base ++ bytes ".hash") h.files ≡ some s
      → s.content ≡ seal tools e.content
      → IsSealed (place h).1
  place_done h e s x there hash same =
      let move = rename world (partial world tools base) (base ++ tar_gz) in
      let (moved, as_moved) =
        or_else_done move (drop_both world tools (base ++ tar_gz)) h tt
          (λ e' g.
            bind-raise_fails
              (ignore (remove_file world (partial world tools base))
                >> ignore (remove_file world (hash_path (base ++ tar_gz))))
              e' g tt)
          x in
      let (e', from, to) = rename_done world (partial world tools base) (base ++ tar_gz) h moved in
      let equal : e ≡ e' = ground arith in
      rw as_moved (
        e',
        s,
        to,
        (Holds-rename world (base ++ bytes ".hash") (some s) (partial world tools base)
              (base ++ tar_gz) partial_hash (λ q. hash_ne base base (sym q))).at
            h hash,
        same ∙ ap (λ (y : Entry). seal tools y.content) equal,
      )

  write_rest_done :
      (h : Host) (e : Entry) (sum : Text)
      → (write_rest world tools base sum h).0 ≡ ok tt
      → get (partial world tools base) h.files ≡ some e
      → sum ≡ hex_encode (tools.sha256 e.content)
      → IsSealed (write_rest world tools base sum h).1
  write_rest_done h e sum x there digest =
      let write = write_file world (hash_path (base ++ tar_gz)) (sum ++ bytes "\n") in
      let first = or_else write (drop_partial world tools (base ++ tar_gz)) in
      let (u, done, same) = bind_done first (λ _. place) h tt x in
      let (written, as_written) =
        or_else_done write (drop_partial world tools (base ++ tar_gz)) h tt
          (λ e' g. bind-raise_fails (ignore (remove_file world (partial world tools base))) e' g tt)
          done in
      let (s, changed, content, regular) =
        write_file_done world (hash_path (base ++ tar_gz)) (sum ++ bytes "\n") h written in
      let now : (first h).1.files ≡ put (base ++ bytes ".hash") s h.files =
        ap (λ (r : Result Text Unit × Host). r.1.files) as_written
        ∙ changed
        ∙ ap (λ p. put p s h.files) (hash_path-append base) in
      rw same (
        place_done (first h).1 e s (ap (λ (r : Result Text Unit × Host). r.0) (sym same) ∙ x)
          (ap (get (partial world tools base)) now
            ∙ get-put_other (base ++ bytes ".hash") (partial world tools base) s h.files
                (λ q. partial_hash (sym q))
            ∙ there)
          (ap (get (base ++ bytes ".hash")) now ∙ get-put_same (base ++ bytes ".hash") s h.files)
          (content ∙ ap (λ t. t ++ bytes "\n") digest))

-- After the writing of an archive that ends without an error, the archive is there, its hash file too, and
-- the hash file has the digest of what the archive holds.
pub write_archive-IsSealed :
    (world : World) (tools : Tools) (dir base : Text) (h : Host)
    → (write_archive world tools dir (base ++ tar_gz) h).0 ≡ ok tt
    → IsSealed world tools base (write_archive world tools dir (base ++ tar_gz) h).1
unfolding write_archive
write_archive-IsSealed world tools dir base h x =
    let archive = base ++ tar_gz in
    let first =
      or_else (pack world tools dir (partial_of archive)) (drop_partial world tools archive) in
    let digest = digest_partial world tools archive in
    let (u, packed, same) = bind_done first (λ _. digest >>= write_rest world tools base) h tt x in
    let y : ((digest >>= write_rest world tools base) (first h).1).0 ≡ ok tt =
      ap (λ (r : Result Text Unit × Host). r.0) (sym same) ∙ x in
    let (sum, done, same') = bind_done digest (write_rest world tools base) (first h).1 tt y in
    let (computed, as_computed) =
      or_else_done (sha256_file world tools (partial_of archive)) (drop_partial world tools archive)
        (first h).1 sum
        (λ e' g. bind-raise_fails (ignore (remove_file world (partial_of archive))) e' g sum)
        done in
    let (e, there, is_digest, unchanged) =
      sha256_file_done world tools (partial_of archive) sum (first h).1 computed in
    let now : (digest (first h).1).1.files ≡ (first h).1.files =
      ap (λ (r : Result Text Text × Host). r.1.files) as_computed ∙ unchanged in
    rw (same, same')
      (write_rest_done world tools base (digest (first h).1).1 e sum
        (ap (λ (r : Result Text Unit × Host). r.0) (sym same') ∙ y)
        (ap (get (partial_of archive)) now ∙ there) is_digest)
