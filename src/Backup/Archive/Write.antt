-- ===== src/Backup/Archive/Write.antt =====
-- The steps of `writeArchive` of internal/backup/backup.go, one by one.
use nomctl.Prelude.{
  ◌≡◌, ◌≢◌, inl, inr, ap, sym, ◌∙◌, ℕ, some, ◌++◌, Text, bytes, eqb_ne, text_eq, last_or,
  last_or-append, Result, arith,
}
use nomctl.Prelude.Dict.{Dict, get, put, remove, get-put_other, get-put_same, dict_laws}
use nomctl.AlertProto.Sign.{hex_encode}
use nomctl.Host.{
  Entry, Host, World, Act, ◌>>◌, or_else, ignore, write_file, remove_file, rename, read_file,
}
use nomctl.Host.Keeps.{
  Keeps, keeps_rules, bind-cases, or_else-cases, or_else_done, bind-raise_fails,
}
use nomctl.Host.Effects.{
  write_file-files, write_file_done, remove_file-files, read_file-files, rename-files,
}
use nomctl.Backup.{Tools, tar_gz, hash_path}
use nomctl.Host.Trees.{entries_in}
use nomctl.Host.Files.{rename_failed}
use nomctl.Backup.Archive.{under, partial_of, pack, drop_partial, digest_partial, drop_both}
use nomctl.Backup.Archive.Sound.{
  seal, IsSound, IsNoFile, hash_ne, hash_path-append, IsSound-put, IsSound-remove, IsSound-put_hash,
  IsSound-put_archive,
}

module _ (world : World) (tools : Tools) (base : Text) where
  abbrev AreReady : Dict Text Entry → Type 0
  AreReady f = IsNoFile (base ++ tar_gz) f × IsSound tools f

  abbrev pub IsReady : Host → Type 0
  IsReady h = AreReady h.files

  abbrev pub partial : Text
  partial = partial_of (base ++ tar_gz)

  partial_ends : last_or 0 partial ≡ b'l'
  partial_ends = last_or-append 0 b'.' (base ++ tar_gz) (bytes "partial")

  partial_ne : partial ≢ base ++ tar_gz
  partial_ne q =
      let ends : last_or 0 (bytes "partial") ≡ last_or 0 (bytes "gz") =
        sym partial_ends ∙ ap (last_or 0) q ∙ last_or-append 0 b'.' base (bytes "tar.gz") in
      ground arith

  pub partial_other : (c : ℕ) → c ≢ b'l' → last_or 0 partial ≢ c
  partial_other c ne q = ne (sym q ∙ partial_ends)

  AreReady-put-partial :
      (x : Entry) (f g : Dict Text Entry) → g ≡ put partial x f → AreReady f → AreReady g
  AreReady-put-partial x f g same (gone, sound) = rw same (
    (λ e q. gone e (sym (get-put_other partial (base ++ tar_gz) x f partial_ne) ∙ q)),
    IsSound-put tools partial x f (partial_other b'z' (λ q. ground arith))
        (partial_other b'h' (λ q. ground arith)) sound,
  )

  AreReady-same : (f g : Dict Text Entry) → g ≡ f → AreReady f → AreReady g
  AreReady-same f g same ready = rw same ready

  IsReady-write_partial : (c : Text) → Keeps IsReady (write_file world partial c)
  IsReady-write_partial c = record {
    at = λ h ready. elim (write_file-files world partial c h) [
      | inl same ↦ AreReady-same h.files _ same ready
      | inr (x, put) ↦ AreReady-put-partial x h.files _ put ready
    ];
  }

  IsReady-write_hash : (c : Text) → Keeps IsReady (write_file world (hash_path (base ++ tar_gz)) c)
  IsReady-write_hash c = record {
    at = λ h ready. elim (write_file-files world (hash_path (base ++ tar_gz)) c h) [
      | inl same ↦ AreReady-same h.files _ same ready
      | inr (x, changed) ↦
          rw (changed, hash_path-append base)
            (
              (λ e q. ready.0 e (
                  sym (
                    get-put_other (base ++ bytes ".hash") (base ++ tar_gz) x h.files
                      (hash_ne base base))
                  ∙ q)),
              IsSound-put_hash tools base x h.files ready.0 ready.1,
            )
    ];
  }

  IsReady-remove_file : (p : Text) → Keeps IsReady (remove_file world p)
  IsReady-remove_file p = record {
    at = λ h ready. elim (remove_file-files world p h) [
      | inl same ↦ AreReady-same h.files _ same ready
      | inr less ↦
          rw less
            ((λ e q. ready.0 e (grind (arith, dict_laws))), IsSound-remove tools p h.files ready.1)
    ];
  }

  IsReady-read_file : (p : Text) → Keeps IsReady (read_file world p)
  IsReady-read_file p = record {
    at = λ h ready. AreReady-same h.files _ (read_file-files world p h) ready;
  }

  pub drop_partial-IsReady :
      {A : Type 0} (e : Text) → Keeps {A = A} IsReady (drop_partial world tools (base ++ tar_gz) e)
  drop_partial-IsReady e = search (keeps_rules, IsReady-remove_file) depth 10

  drop_both-IsReady : (e : Text) → Keeps IsReady (drop_both world tools (base ++ tar_gz) e)
  drop_both-IsReady e = search (keeps_rules, IsReady-remove_file) depth 10

  pub pack-IsReady : (dir : Text) → Keeps IsReady (pack world tools dir partial)
  pack-IsReady dir = record {
    at = λ h ready.
        (IsReady-write_partial (tools.tar (under (entries_in dir h.files) h.files))).at h ready;
  }

  pub digest_partial-IsReady : Keeps IsReady (digest_partial world tools (base ++ tar_gz))
  digest_partial-IsReady = search (keeps_rules, IsReady-remove_file, IsReady-read_file) depth 10

  -- The last step: the archive appears under its name.
  appear :
      (h : Host) (e s : Entry)
      → IsReady h
      → get partial h.files ≡ some e
      → get (base ++ bytes ".hash") h.files ≡ some s
      → s.content ≡ seal tools e.content
      → IsSound tools
          (or_else
            (rename world partial (base ++ tar_gz))
            (drop_both world tools (base ++ tar_gz))
            h).1.files
  appear h e s ready there hash same =
      let other : partial ≢ base ++ bytes ".hash" = λ q.
        partial_other b'h' (λ r. ground arith)
          (ap (last_or 0) q ∙ last_or-append 0 b'.' base (bytes "hash")) in
      elim (or_else-cases (rename world partial (base ++ tar_gz))
        (drop_both world tools (base ++ tar_gz)) h) [
          | inr (x, failed, as_failed) ↦
              rw as_failed
                ((drop_both-IsReady x).at _ (
                  AreReady-same h.files _ (rename_failed world partial (base ++ tar_gz) h x failed)
                    ready)).1
          | inl (a, done, as_done) ↦
              rw as_done (elim (rename-files world partial (base ++ tar_gz) h) [
                | inl unchanged ↦ rw unchanged ready.1
                | inr (e', from, moved) ↦
                    (let e_is : e ≡ e' = ground arith in
                      rw moved (
                        IsSound-put_archive tools base e' s (remove partial h.files)
                          (grind
                            (arith, dict_laws, hash, eqb_ne partial (base ++ bytes ".hash") other))
                          (same ∙ ap (λ (y : Entry). seal tools y.content) e_is)
                          (IsSound-remove tools partial h.files ready.1)))
              ])
        ]

  abbrev pub write_rest : Text → Act Unit
  write_rest sum =
      or_else (write_file world (hash_path (base ++ tar_gz)) (sum ++ bytes "\n"))
        (drop_partial world tools (base ++ tar_gz))
      >> or_else (rename world partial (base ++ tar_gz)) (drop_both world tools (base ++ tar_gz))

  pub write_rest_lem :
      (h : Host) (e : Entry) (sum : Text)
      → IsReady h
      → get partial h.files ≡ some e
      → sum ≡ hex_encode (tools.sha256 e.content)
      → IsSound tools (write_rest sum h).1.files
  write_rest_lem h e sum ready there digest =
      let write = write_file world (hash_path (base ++ tar_gz)) (sum ++ bytes "\n") in
      let first = or_else write (drop_partial world tools (base ++ tar_gz)) in
      let kept : Keeps IsReady first =
        search (keeps_rules, IsReady-write_hash, drop_partial-IsReady) depth 6 in
      elim (bind-cases first
        (λ _.
          or_else (rename world partial (base ++ tar_gz)) (drop_both world tools (base ++ tar_gz)))
        h) [
          | inl (x, failed, same) ↦ rw same (kept.at h ready).1
          | inr (a, done, same) ↦
              (let (written, as_written) =
                  or_else_done write (drop_partial world tools (base ++ tar_gz)) h tt
                    (λ x g. bind-raise_fails (ignore (remove_file world partial)) x g tt) done in
                let (s, changed, content, regular) =
                  write_file_done world (hash_path (base ++ tar_gz)) (sum ++ bytes "\n") h
                    written in
                let now : (first h).1.files ≡ put (base ++ bytes ".hash") s h.files =
                  ap (λ (r : Result Text Unit × Host). r.1.files) as_written
                  ∙ changed
                  ∙ ap (λ p. put p s h.files) (hash_path-append base) in
                let other : base ++ bytes ".hash" ≢ partial = λ q.
                  partial_other b'h' (λ r. ground arith)
                    (ap (last_or 0) (sym q) ∙ last_or-append 0 b'.' base (bytes "hash")) in
                rw same (
                  appear (first h).1 e s (kept.at h ready)
                    (ap (get partial) now
                      ∙ get-put_other (base ++ bytes ".hash") partial s h.files other
                      ∙ there)
                    (ap (get (base ++ bytes ".hash")) now
                      ∙ get-put_same (base ++ bytes ".hash") s h.files)
                    (content ∙ ap (λ t. t ++ bytes "\n") digest)))
        ]
