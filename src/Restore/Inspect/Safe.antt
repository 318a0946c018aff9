-- ===== src/Restore/Inspect/Safe.antt =====
-- `Inspect` of internal/restore/archive.go, and what an archive holds that it accepts.
use nomctl.Prelude.{
  ◌≡◌, ◌≢◌, ◌∙◌, ap, subst, refl, ◌⊎◌, inl, inr, true, Option, none, some, List, [], ◌∷◌, Text,
  bytes, text_eq, eqb_ne, ◌==◌, ok, err, any, starts_with, ◌++◌, arith, Result-cases, Bool-cases,
}
use nomctl.Restore.Inspect.{
  Archives, Header, EntryKind, directory, regular, other, Manifest, Seen, is_folder, place,
  entry_path, visit, walk, inspect,
}
use nomctl.Restore.Inspect.Paths.{
  elements, resolved, join_path, IsClean, AreProper, AllWhole-elements, AreProper-resolve,
  cut-join_path, join_path-full,
}

-- The archive's root, a directory in one of the folders, or a file below one, which is extracted
-- where its name leads.
pub record IsBelow (a : Archives) (h : Header) : Type 0 where
  pub folder : Text
  pub below : List Text
  pub leads : resolved h.name ≡ folder ∷ below
  pub known :
      any
        (λ g. folder == g)
        (bytes "nom" ∷ bytes "network" ∷ bytes "consensus" ∷ bytes "cache" ∷ [])
      ≡ true
  pub kind : (h.kind ≡ directory) ⊎ ((h.kind ≡ regular) × (below ≢ []))
  pub place : entry_path a h.name ≡ ok (folder, join_path below)

abbrev pub IsSafe : Archives → Header → Type 0
IsSafe a h = (resolved h.name ≡ []) ⊎ IsBelow a h

abbrev pub AreSafe : Archives → List Header → Type 0
AreSafe a [] = Unit
AreSafe a (h ∷ hs) = IsSafe a h × AreSafe a hs

module _ (a : Archives) (laws : IsClean a.clean) where
  -- A name that leads to the root.
  entry_path-root : (name : Text) → resolved name ≡ [] → entry_path a name ≡ ok ([], [])
  unfolding entry_path
  entry_path-root name root =
      let clean = laws.rooted name ∙ ap (λ es. b'/' ∷ join_path es) root in
      rw (entry_path, clean) refl

  -- Any other name is refused, or placed where it leads.
  entry_path-cases :
      (name e : Text) (es : List Text)
      → resolved name ≡ e ∷ es
      → ((m : Text) × (entry_path a name ≡ err m))
        ⊎ (entry_path a name ≡ place name (e, join_path es))
  unfolding entry_path
  entry_path-cases name e es leads =
      let proper : AreProper (e ∷ es) =
        subst AreProper leads (AreProper-resolve (elements name) (AllWhole-elements name)) in
      let clean = laws.rooted name ∙ ap (λ es. b'/' ∷ join_path es) leads in
      let full = join_path-full e es proper.0 in
      let parts = cut-join_path e es proper.0 in
      elim (Bool-cases (starts_with (bytes "/..") (b'/' ∷ join_path (e ∷ es)))) [
        | inl above ↦
            inl (
              bytes "backup entry escapes the archive: " ++ name,
              rw (entry_path, clean, above) refl,
            )
        | inr inside ↦ inr (rw (entry_path, clean, inside, full, parts) refl)
      ]

  accept-kind :
      (k : EntryKind) (h : Header) (folder rel : Text) (seen seen' : Seen)
      → h.kind ≡ k
      → folder ≢ []
      → visit h (ok (folder, rel)) seen ≡ ok seen'
      → (h.kind ≡ directory) ⊎ ((h.kind ≡ regular) × (rel ≢ []))
  accept-kind directory h folder rel seen seen' k ne done = inl k
  accept-kind regular h folder rel seen seen' k ne done = inr (
    k,
    λ q.
        (let none_below : (rel == []) ≡ true = rw q refl in
          let d = rw (k, eqb_ne folder [] ne, none_below) at done in ground arith),
  )
  accept-kind other h folder rel seen seen' k ne done =
      (let d = rw (k, eqb_ne folder [] ne) at done in absurd (ground arith))

  visit-IsSafe :
      (h : Header) (seen seen' : Seen) (es : List Text)
      → resolved h.name ≡ es
      → visit h (entry_path a h.name) seen ≡ ok seen'
      → IsSafe a h
  visit-IsSafe h seen seen' [] leads done = inl leads
  visit-IsSafe h seen seen' (e ∷ es) leads done =
      let proper : AreProper (e ∷ es) =
        subst AreProper leads (AreProper-resolve (elements h.name) (AllWhole-elements h.name)) in
      elim (entry_path-cases h.name e es leads) [
        | inl (m, refused) ↦ absurd (let d = rw refused at done in ground arith)
        | inr placed ↦ elim (Bool-cases (is_folder e)) [
          | inr unknown ↦
              absurd (let d = rw placed at done in let d' = rw unknown at d in ground arith)
          | inl known ↦
              (let path : entry_path a h.name ≡ ok (e, join_path es) = placed ∙ (rw known refl) in
                let d = rw path at done in
                let kinds = accept-kind h.kind h e (join_path es) seen seen' refl proper.0.full d in
                inr (record {
                  folder = e;
                  below = es;
                  leads = leads;
                  known = known;
                  kind = elim kinds [
                    | inl dir ↦ inl dir
                    | inr (file, below) ↦ inr (file, λ q. below (ap join_path q))
                  ];
                  place = path;
                }))
        ]
      ]

  walk-AreSafe :
      (hs : List Header) (end : Option Text) (seen seen' : Seen)
      → walk a hs end seen ≡ ok seen'
      → AreSafe a hs × (end ≡ none)
  unfolding walk
  walk-AreSafe [] none seen seen' done = (tt, refl)
  walk-AreSafe [] (some e) seen seen' done = absurd (ground arith)
  walk-AreSafe (h ∷ hs) end seen seen' done =
      elim (Result-cases (visit h (entry_path a h.name) seen)) [
        | inr (e, refused) ↦ absurd (ground arith)
        | inl (next, accepted) ↦
            (let (rest, ended) = walk-AreSafe hs end next seen' (ground arith) in
              ((visit-IsSafe h seen next (resolved h.name) refl accepted, rest), ended))
      ]

-- Where an inspection accepts an archive, the archive was read to its end, and the name of each entry
-- leads to the root, or to one of the four chain-data folders, which is then a directory, or to a directory
-- or a file below one, and that is the place where the extraction puts it; `path.Clean` resolves the
-- elements of a rooted path.
pub inspect_safe :
    (a : Archives) (archive : Text) (m : Manifest)
    → IsClean a.clean
    → inspect a archive ≡ ok m
    → AreSafe a (a.headers archive).0 × ((a.headers archive).1 ≡ none)
unfolding inspect
inspect_safe a archive m laws done =
    let start : Seen = record { present = []; uncompressed = 0; files = 0 } in
    let (hs, end) = a.headers archive in
    elim (Result-cases (walk a hs end start)) [
      | inr (e, refused) ↦ absurd (ground arith)
      | inl (seen, accepted) ↦ walk-AreSafe a laws hs end start seen accepted
    ]
