-- ===== src/Backup/Archive/Sound.antt =====
-- Archives and their hash files, of internal/backup/backup.go: `HashPath`.
use nomctl.Prelude.{
  eqb_false, front_ne, last_or, last_or-append, ◌≡◌, ◌≢◌, inl, inr, ap, sym, ◌∙◌, false, ℕ, some,
  [], ◌∷◌, ◌++◌, Text, bytes, text_eq, text_eqb_iff, ◌==◌, eqb_ne, eqb_refl, arith, Bool-cases,
}
use nomctl.Prelude.Dict.{Dict, get, put, remove, get-put_other, get-put_same, dict_laws}
use nomctl.AlertProto.Sign.{hex_encode}
use nomctl.Host.{Entry}
use nomctl.Backup.{Tools, tar_gz, hash_path, trim_suffix}

abbrev pub seal : Tools → Text → Text
seal tools content = hex_encode (tools.sha256 content) ++ bytes "\n"

-- Where an archive and its hash file are both there, as files, the digest is the archive's.
abbrev pub IsSound : Tools → Dict Text Entry → Type 0
IsSound tools f =
    (base : Text) (e s : Entry)
    → get (base ++ tar_gz) f ≡ some e
    → e.is_dir ≡ false
    → get (base ++ bytes ".hash") f ≡ some s
    → s.is_dir ≡ false
    → s.content ≡ seal tools e.content

-- No file is there that was not there before.
abbrev pub NoNewFile : Dict Text Entry → Dict Text Entry → Type 0
NoNewFile f g = (q : Text) (e : Entry) → get q g ≡ some e → e.is_dir ≡ false → get q f ≡ some e

abbrev pub IsNoFile : Text → Dict Text Entry → Type 0
IsNoFile q f = (e : Entry) → get q f ≡ some e → e.is_dir ≢ false

trim_suffix_self : (c : ℕ) (t : Text) → trim_suffix (c ∷ t) (c ∷ t) ≡ []
unfolding trim_suffix
trim_suffix_self c t = rw (eqb_refl (c ∷ t))

trim_suffix-append : (s : Text) (c : ℕ) (t : Text) → trim_suffix (c ∷ t) (s ++ c ∷ t) ≡ s
unfolding trim_suffix
trim_suffix-append [] c t = trim_suffix_self c t
trim_suffix-append (a ∷ s) c t =
    let apart : (a ∷ s) ++ c ∷ t ≢ c ∷ t = λ e. front_ne a s (c ∷ t) e in
    rw (eqb_ne ((a ∷ s) ++ c ∷ t) (c ∷ t) apart, trim_suffix-append s c t)

pub hash_path-append : (base : Text) → hash_path (base ++ tar_gz) ≡ base ++ bytes ".hash"
unfolding hash_path
hash_path-append base = rw (trim_suffix-append base b'.' (bytes "tar.gz"))

-- The same text behind two makes them one.
pub append-cancel : (s s' : Text) (c : ℕ) (t : Text) → s ++ c ∷ t ≡ s' ++ c ∷ t → s ≡ s'
append-cancel s s' c t e =
    sym (trim_suffix-append s c t) ∙ ap (trim_suffix (c ∷ t)) e ∙ trim_suffix-append s' c t

pub hash_ne : (base base' : Text) → base ++ bytes ".hash" ≢ base' ++ tar_gz
hash_ne base base' q =
    let ends : last_or 0 (bytes "hash") ≡ last_or 0 (bytes "gz") =
      sym (last_or-append 0 b'.' base (bytes "hash"))
      ∙ ap (last_or 0) q
      ∙ last_or-append 0 b'.' base' (bytes "tar.gz") in
    ground arith

module _ (tools : Tools) where
  pub IsSound-NoNewFile :
      (f g : Dict Text Entry) → NoNewFile f g → IsSound tools f → IsSound tools g
  IsSound-NoNewFile f g old sound base e s he de hs ds =
      sound base e s (old _ e he de) de (old _ s hs ds) ds

  pub IsSound-put :
      (p : Text) (x : Entry) (f : Dict Text Entry)
      → last_or 0 p ≢ b'z'
      → last_or 0 p ≢ b'h'
      → IsSound tools f
      → IsSound tools (put p x f)
  IsSound-put p x f nz nh sound base e s he de hs ds =
      let apart : p ≢ base ++ tar_gz =
        λ q. nz (ap (last_or 0) q ∙ last_or-append 0 b'.' base (bytes "tar.gz")) in
      let apart' : p ≢ base ++ bytes ".hash" =
        λ q. nh (ap (last_or 0) q ∙ last_or-append 0 b'.' base (bytes "hash")) in
      sound base e s (sym (get-put_other p (base ++ tar_gz) x f apart) ∙ he) de
        (sym (get-put_other p (base ++ bytes ".hash") x f apart') ∙ hs) ds

  pub IsSound-remove :
      (p : Text) (f : Dict Text Entry) → IsSound tools f → IsSound tools (remove p f)
  IsSound-remove p f sound base e s he de hs ds =
      sound base e s (grind (arith, dict_laws)) de (grind (arith, dict_laws)) ds

  pub IsSound-put_hash :
      (base : Text) (x : Entry) (f : Dict Text Entry)
      → IsNoFile (base ++ tar_gz) f
      → IsSound tools f
      → IsSound tools (put (base ++ bytes ".hash") x f)
  IsSound-put_hash base x f none_there sound base' e s he de hs ds =
      let he' =
        sym (get-put_other (base ++ bytes ".hash") (base' ++ tar_gz) x f (hash_ne base base'))
        ∙ he in
      elim (Bool-cases (base == base')) [
        | inl one ↦ absurd (
            none_there e (ap (λ b. get (b ++ tar_gz) f) ((text_eqb_iff base base').0 one) ∙ he') de)
        | inr two ↦
            (let apart : base ++ bytes ".hash" ≢ base' ++ bytes ".hash" =
                λ q. eqb_false base base' two (append-cancel base base' b'.' (bytes "hash") q) in
              sound base' e s he' de
                (sym (get-put_other (base ++ bytes ".hash") (base' ++ bytes ".hash") x f apart)
                  ∙ hs)
                ds)
      ]

  pub IsSound-put_archive :
      (base : Text) (x s : Entry) (f : Dict Text Entry)
      → get (base ++ bytes ".hash") f ≡ some s
      → s.content ≡ seal tools x.content
      → IsSound tools f
      → IsSound tools (put (base ++ tar_gz) x f)
  IsSound-put_archive base x s f there same sound base' e s' he de hs ds =
      let hs' =
        sym (
          get-put_other (base ++ tar_gz) (base' ++ bytes ".hash") x f
            (λ q. hash_ne base' base (sym q)))
        ∙ hs in
      elim (Bool-cases (base == base')) [
        | inl one ↦
            (let q = (text_eqb_iff base base').0 one in
              let xe : some x ≡ some e =
                sym (get-put_same (base ++ tar_gz) x f)
                ∙ ap (λ b. get (b ++ tar_gz) (put (base ++ tar_gz) x f)) q
                ∙ he in
              let se : some s ≡ some s' =
                sym there ∙ ap (λ b. get (b ++ bytes ".hash") f) q ∙ hs' in
              let x_is : x ≡ e = ground arith in
              let s_is : s ≡ s' = ground arith in
              sym (ap (λ (y : Entry). y.content) s_is)
              ∙ same
              ∙ ap (λ (y : Entry). seal tools y.content) x_is)
        | inr two ↦
            (let apart : base ++ tar_gz ≢ base' ++ tar_gz =
                λ q. eqb_false base base' two (append-cancel base base' b'.' (bytes "tar.gz") q) in
              sound base' e s'
                (sym (get-put_other (base ++ tar_gz) (base' ++ tar_gz) x f apart) ∙ he) de hs' ds)
      ]
