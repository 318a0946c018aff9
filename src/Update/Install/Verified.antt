-- ===== src/Update/Install/Verified.antt =====
-- `Fetch` of internal/update/update.go, and the list of a release.
use nomctl.Prelude.{
  ℕ, ◌≡◌, ◌≢◌, ◌⊎◌, inl, inr, refl, sym, ap, ◌∙◌, true, false, List, [], ◌∷◌, Text, text_eq,
  text_eqb_iff, nat_eqb, ◌==◌, ◌++◌, all, not, bytes, ok, arith, Bool-cases, Result-cases,
}
use nomctl.AlertProto.Sign.{hex_encode}
use nomctl.Update.Version.{trim_v, split_at, archive_name, add_head}
use nomctl.Update.Install.{Fetcher, listed, wanted_sum, check_archive, fetch}

abbrev base_of : Text → Text → Text
base_of repo tag =
    bytes "https://github.com/" ++ repo ++ bytes "/releases/download/" ++ tag ++ bytes "/"

-- Lines with a newline between each two of them.
abbrev pub join_lines : List Text → Text
join_lines [] = []
join_lines (l ∷ []) = l
join_lines (l ∷ m ∷ ls) = l ++ 10 ∷ join_lines (m ∷ ls)

abbrev pub IsLine : Text → Type 0
IsLine l = all (λ c. not (nat_eqb c 10)) l ≡ true

abbrev pub AreLines : List Text → Type 0
AreLines [] = Unit
AreLines (l ∷ ls) = IsLine l × AreLines ls

-- The asset of a version: the tag without a leading v.
abbrev pub IsAsset : Text → Text → Text → Type 0
IsAsset tag goarch name =
    (version : Text) × (name
      ≡ bytes "nomctl_" ++ version ++ bytes "_linux_" ++ goarch ++ bytes ".tar.gz")
    × ((tag ≡ b'v' ∷ version) ⊎ ((tag ≡ version) × ((t : Text) → tag ≢ b'v' ∷ t)))

module _ (fields : Text → List Text) (name : Text) where
  -- No line has two words of which the second is the name.
  abbrev pub NoneFor : List Text → Type 0
  NoneFor [] = Unit
  NoneFor (l ∷ ls) = ((s : Text) → fields l ≢ s ∷ name ∷ []) × NoneFor ls

  -- The last line for the name has this digest.
  abbrev pub LastFor : Text → List Text → Type 0
  LastFor digest ls =
      (earlier : List Text) × (line : Text) × (later : List Text) × (ls ≡ earlier ++ line ∷ later)
      × (fields line ≡ digest ∷ name ∷ [])
      × NoneFor later

  listed-cases :
      (want : Text) (fs : List Text)
      → ((fs ≡ listed name want fs ∷ name ∷ []))
        ⊎ (((s : Text) → fs ≢ s ∷ name ∷ []) × (listed name want fs ≡ want))
  listed-cases want [] = inr (λ s q. ground arith, refl)
  listed-cases want (a ∷ []) = inr (λ s q. ground arith, refl)
  listed-cases want (a ∷ b ∷ c ∷ fs) = inr (λ s q. ground arith, refl)
  listed-cases want (a ∷ b ∷ []) = elim (Bool-cases (b == name)) [
    | inl same ↦ inl (rw same (ap (λ n. a ∷ n ∷ []) ((text_eqb_iff b name).0 same)))
    | inr other ↦ inr ((λ s q. ground (arith, text_eqb_iff b name)), rw other refl)
  ]

  wanted_sum-cases :
      (ls : List Text) (want : Text)
      → LastFor (wanted_sum fields name ls want) ls
        ⊎ (NoneFor ls × (wanted_sum fields name ls want ≡ want))
  unfolding wanted_sum
  wanted_sum-cases [] want = inr (tt, refl)
  wanted_sum-cases (l ∷ ls) want = elim (wanted_sum-cases ls (listed name want (fields l))) [
    | inl (earlier, line, later, parts, read, rest) ↦
        inl (l ∷ earlier, line, later, ap (λ xs. l ∷ xs) parts, read, rest)
    | inr (none_for, same) ↦ elim (listed-cases want (fields l)) [
      | inl read ↦ inl ([], l, ls, refl, rw same read, none_for)
      | inr (other, kept) ↦ inr ((other, none_for), same ∙ kept)
    ]
  ]

-- Splitting at newlines gives the lines.
join_lines-add_head : (c : ℕ) (ls : List Text) → join_lines (add_head c ls) ≡ c ∷ join_lines ls
join_lines-add_head c [] = refl
join_lines-add_head c (l ∷ []) = refl
join_lines-add_head c (l ∷ m ∷ ls) = refl

AreLines-add_head :
    (c : ℕ) (ls : List Text) → nat_eqb c 10 ≡ false → AreLines ls → AreLines (add_head c ls)
AreLines-add_head c [] h p = (rw h refl, tt)
AreLines-add_head c (l ∷ ls) h p = (rw h p.0, p.1)

split_at-full : (s : Text) → (l : Text) × (ls : List Text) × (split_at 10 s ≡ l ∷ ls)
unfolding split_at
split_at-full [] = ([], [], refl)
split_at-full (c ∷ s) = elim (Bool-cases (nat_eqb c 10)) [
  | inl newline ↦ ([], split_at 10 s, rw newline refl)
  | inr other ↦ (let (l, ls, same) = split_at-full s in (c ∷ l, ls, rw (other, same) refl))
]

join_lines-split_at : (s : Text) → (join_lines (split_at 10 s) ≡ s) × AreLines (split_at 10 s)
unfolding split_at
join_lines-split_at [] = (refl, (refl, tt))
join_lines-split_at (c ∷ s) =
    let (joined, lines) = join_lines-split_at s in
    elim (Bool-cases (nat_eqb c 10)) [
      | inl newline ↦
          (let (l, ls, same) = split_at-full s in
            let c_is : c ≡ 10 = ground arith in
            (
              rw (newline, same, c_is) (ap (λ t. 10 ∷ t) (ap join_lines (sym same) ∙ joined)),
              rw newline (refl, lines),
            ))
      | inr other ↦ (
        rw other (join_lines-add_head c (split_at 10 s) ∙ ap (λ t. c ∷ t) joined),
        rw other (AreLines-add_head c (split_at 10 s) other lines),
      )
    ]

archive_name-IsAsset : (tag goarch : Text) → IsAsset tag goarch (archive_name tag goarch)
unfolding archive_name trim_v
archive_name-IsAsset [] goarch = ([], refl, inr (refl, λ t q. ground arith))
archive_name-IsAsset (c ∷ s) goarch = elim (Bool-cases (nat_eqb b'v' c)) [
  | inl v ↦ (s, rw v refl, inl (let same : c ≡ b'v' = ground arith in ap (λ d. d ∷ s) same))
  | inr other ↦ (c ∷ s, rw other refl, inr (refl, λ t q. ground arith))
]

module _ (f : Fetcher) where
  -- The archive was downloaded under the name of the asset, and its digest in hexadecimal is in the last
  -- line of the list that is for this name.
  pub record IsListed (repo tag goarch archive : Text) : Type 0 where
    pub name : Text
    pub asset : IsAsset tag goarch name
    pub lines : List Text
    pub separate : AreLines lines
    pub from_sums : f.download (base_of repo tag ++ bytes "checksums.txt") ≡ ok (join_lines lines)
    pub from_base : f.download (base_of repo tag ++ name) ≡ ok archive
    pub digest : LastFor f.fields name (hex_encode (f.sha256 archive)) lines

  check_archive_done :
      (name want archive program : Text)
      → check_archive f name want archive ≡ ok program
      → (hex_encode (f.sha256 archive) ≡ want) × (f.extract archive ≡ ok program)
  unfolding check_archive
  check_archive_done name want archive program h =
      elim (Bool-cases (hex_encode (f.sha256 archive) == want)) [
        | inl same ↦ ((text_eqb_iff (hex_encode (f.sha256 archive)) want).0 same, ground arith)
        | inr other ↦ absurd (ground arith)
      ]

-- A fetch that succeeds gives the program of an archive of that release, system and processor, whose
-- digest is the one that the last line for the archive's name has in the release's list.
pub fetch-IsListed :
    (f : Fetcher) (repo tag goarch program : Text)
    → fetch f repo tag goarch ≡ ok program
    → (archive : Text) × IsListed f repo tag goarch archive × (f.extract archive ≡ ok program)
unfolding fetch
fetch-IsListed f repo tag goarch program h =
    let name = archive_name tag goarch in
    elim (Result-cases (f.download (base_of repo tag ++ bytes "checksums.txt"))) [
      | inr (e, failed) ↦ absurd (ground arith)
      | inl (sums, got) ↦ elim (Result-cases (f.download (base_of repo tag ++ name))) [
        | inr (e, failed) ↦ absurd (ground arith)
        | inl (archive, got') ↦
            (let want = wanted_sum f.fields name (split_at 10 sums) [] in
              elim (Bool-cases (want == [])) [
                | inl empty ↦ absurd (ground arith)
                | inr full ↦
                    (let (digest, done) =
                        check_archive_done f name want archive program (ground arith) in
                      let (joined, lines) = join_lines-split_at sums in
                      (
                        archive,
                        record {
                          name = name;
                          asset = archive_name-IsAsset tag goarch;
                          lines = split_at 10 sums;
                          separate = lines;
                          from_sums = got ∙ ap ok (sym joined);
                          from_base = got';
                          digest = elim (wanted_sum-cases f.fields name (split_at 10 sums) []) [
                            | inl last ↦ rw digest last
                            | inr (none_for, same) ↦
                                absurd (let q = rw same at full in ground arith)
                          ];
                        },
                        done,
                      ))
              ])
      ]
    ]
