-- ===== src/NodeConfig/Edits.antt =====
-- What a change of one key does to it and to the others.
use mathlib.Core.Option
use nomctl.Prelude.{
  ◌≡◌, ◌≢◌, ◌⊎◌, inl, inr, refl, ap, sym, subst, ◌∙◌, false, some, [], Option, none, map, Text,
  text_eq, text_eqb_iff, ◌==◌, ok, Result-cases, Bool-cases, Option-cases, arith, if◌then◌else◌,
}
use nomctl.Prelude.Dict.{Dict, get, put, get-put, get-put_other, get-put_same}
use nomctl.NodeConfig.{
  bool_value, text_value, int_value, texts_value, float_value, any_texts_value, other_value,
  ValueOf, Json, Document, split, is_null, read_raw, get_section, get_at, get_key, set_in,
  set_section, set_at, set_key,
}

module _ (json : Json) where
  -- A value as it comes back from its text: an int as a float64, a list of strings as a list of `any`.
  abbrev pub as_read : ValueOf json → ValueOf json
  as_read (bool_value b) = bool_value b
  as_read (text_value t) = text_value (json.to_valid t)
  as_read (int_value n) = float_value (json.float_of n)
  as_read (texts_value ts) = any_texts_value (map json.to_valid ts)
  as_read (float_value x) = float_value x
  as_read (any_texts_value ts) = any_texts_value (map json.to_valid ts)
  as_read (other_value o) = other_value o

  -- All names of an object are UTF-8.
  abbrev pub HasValidNames : Dict Text Text → Type 0
  HasValidNames m = (f raw : Text) → get f m ≡ some raw → json.to_valid f ≡ f

  -- What encoding/json promises: a value that is written is read back, numbers as float64 and lists as
  -- lists of `any`; the names of an object that is read are UTF-8; and an object that is written under such
  -- names is an object with these members, whose texts are rewritten (compacted, <, > and & escaped) to
  -- ones of the same value.
  pub record IsLawful : Type 0 where
    pub value :
        (v : ValueOf json) (t : Text) → json.marshal v ≡ ok t → json.unmarshal t ≡ ok (as_read v)
    pub names : (t : Text) (m : Dict Text Text) → json.object t ≡ some m → HasValidNames m
    pub rewritten : Text → Text
    pub same_value : (raw : Text) → json.unmarshal (rewritten raw) ≡ json.unmarshal raw
    pub members :
        (m : Dict Text Text) (t : Text)
        → HasValidNames m
        → json.of_object m ≡ ok t
        → (m' : Dict Text Text) × (json.object t ≡ some m')
          × ((f : Text) → get f m' ≡ Option.map rewritten (get f m))
          × (is_null json t ≡ false)

-- The name at the top of the document that a key is under.
abbrev pub top_name : Text × Text → Text
top_name (section, field) = if section == [] then field else section

-- Two keys under different names at the top, or two fields of one section.
abbrev pub AreApart : Text × Text → Text × Text → Type 0
AreApart k l = (top_name k ≢ top_name l) ⊎ ((k.0 ≡ l.0) × (k.0 ≢ []) × (k.1 ≢ l.1))

module _ (json : Json) (laws : IsLawful json) where
  -- What a section becomes: the fields it had, with the new one, as the text of an object.
  abbrev IsSection : Text → Text → Text → Document → Document → Type 0
  IsSection section field enc d d' =
      (m : Dict Text Text) × (t : Text) × HasValidNames json m
      × (json.of_object (put field enc m) ≡ ok t)
      × (d' ≡ put section t d)
      × ((g : Text) → get_section json section g (get section d) ≡ read_raw json (get g m))

  set_in_done :
      (section field enc : Text) (d d' : Document) (m : Dict Text Text)
      → ((g : Text) → get_section json section g (get section d) ≡ read_raw json (get g m))
      → HasValidNames json m
      → set_in json section field enc d (some m) ≡ ok d'
      → IsSection section field enc d d'
  set_in_done section field enc d d' m before valid done =
      elim (Result-cases (json.of_object (put field enc m))) [
        | inr (e, failed) ↦ absurd (ground arith)
        | inl (t, written) ↦
            (m, t, valid, written, (let q = rw written at done in ground arith), before)
      ]

  set_section_done :
      (section field enc : Text) (d d' : Document)
      → set_section json section field enc d (get section d) ≡ ok d'
      → IsSection section field enc d d'
  unfolding get
  set_section_done section field enc d d' done = elim (Option-cases (get section d)) [
    | inl absent ↦
        set_in_done section field enc d d' [] (λ g. rw absent refl)
          (λ f raw x. absurd (ground arith)) (rw absent at done)
    | inr (sec, there) ↦ elim (Bool-cases (is_null json sec)) [
      | inl null ↦
          set_in_done section field enc d d' [] (λ g. rw (there, null) refl)
            (λ f raw x. absurd (ground arith)) (rw (there, null) at done)
      | inr full ↦ elim (Option-cases (json.object sec)) [
        | inl broken ↦ absurd (let q = rw (there, full, broken) at done in ground arith)
        | inr (m, parsed) ↦
            set_in_done section field enc d d' m (λ g. rw (there, full, parsed) refl)
              (laws.names sec m parsed) (rw (there, full, parsed) at done)
      ]
    ]
  ]

  read_raw-rewritten :
      (o : Option Text) → read_raw json (Option.map laws.rewritten o) ≡ read_raw json o
  read_raw-rewritten none = refl
  read_raw-rewritten (some raw) = rw (laws.same_value raw) refl

  HasValidNames-put :
      (field enc : Text) (m : Dict Text Text)
      → json.to_valid field ≡ field
      → HasValidNames json m
      → HasValidNames json (put field enc m)
  HasValidNames-put field enc m valid names f raw x = elim (Bool-cases (field == f)) [
    | inl same ↦ subst (λ g. json.to_valid g ≡ g) ((text_eqb_iff field f).0 same) valid
    | inr other ↦ names f raw (ground (arith, get-put field f enc m))
  ]

  -- A field of the section, read after the change.
  section_after :
      (section field enc g : Text) (d d' : Document) (m : Dict Text Text) (t : Text)
      → json.to_valid field ≡ field
      → HasValidNames json m
      → json.of_object (put field enc m) ≡ ok t
      → d' ≡ put section t d
      → get_section json section g (get section d') ≡ read_raw json (get g (put field enc m))
  section_after section field enc g d d' m t valid names written changed =
      let (m', parsed, same, full) =
        laws.members (put field enc m) t (HasValidNames-put field enc m valid names) written in
      let there : get section d' ≡ some t = ap (get section) changed ∙ get-put_same section t d in
      rw (there, full, parsed, same g) (read_raw-rewritten (get g (put field enc m)))

  -- What is under another name at the top.
  get_at_other :
      (name t section field : Text) (d : Document)
      → name ≢ top_name (section, field)
      → get_at json section field (put name t d) ≡ get_at json section field d
  get_at_other name t section field d ne = elim (Bool-cases (section == [])) [
    | inl top ↦
        (let apart : name ≢ field = λ q. ne (q ∙ sym (rw top refl)) in
          rw top (ap (read_raw json) (get-put_other name field t d apart)))
    | inr within ↦
        (let apart : name ≢ section = λ q. ne (q ∙ sym (rw within refl)) in
          rw within (ap (get_section json section field) (get-put_other name section t d apart)))
  ]

  set_at_other :
      (section field section' field' : Text) (v : ValueOf json) (d d' : Document)
      → AreApart (section, field) (section', field')
      → json.to_valid field ≡ field
      → set_at json section field d (json.marshal v) ≡ ok d'
      → get_at json section' field' d' ≡ get_at json section' field' d
  set_at_other section field section' field' v d d' apart valid done =
      elim (Result-cases (json.marshal v)) [
        | inr (e, failed) ↦ absurd (let q = rw failed at done in ground arith)
        | inl (enc, written) ↦ elim (Bool-cases (section == [])) [
          | inl top ↦
              (let q = rw (written, top) at done in
                let changed : put field enc d ≡ d' = ground arith in
                elim apart [
                  | inl ne ↦
                      ap (get_at json section' field') (sym changed)
                      ∙ get_at_other field enc section' field' d (λ r. ne (rw top r))
                  | inr (one, named, two) ↦ absurd (named ((text_eqb_iff section []).0 top))
                ])
          | inr within ↦
              (let q = rw (written, within) at done in
                let (m, t, names, whole, changed, before) =
                  set_section_done section field enc d d' q in
                elim apart [
                  | inl ne ↦
                      ap (get_at json section' field') changed
                      ∙ get_at_other section t section' field' d (λ r. ne (rw within r))
                  | inr (one, named, two) ↦
                      subst (λ s. get_at json s field' d' ≡ get_at json s field' d) one
                        (rw within (
                          section_after section field enc field' d d' m t valid names whole changed
                          ∙ ap (read_raw json) (get-put_other field field' enc m two)
                          ∙ sym (before field')))
                ])
        ]
      ]

-- Setting a key changes what no other key reads as, where the two are under different names at the top
-- or are two fields of one section, although the section is written anew; the name of the key in its
-- section is UTF-8.
pub get_key-set_key_ne :
    (json : Json) (key other : Text) (v : ValueOf json) (d d' : Document)
    → IsLawful json
    → json.to_valid (split key).1 ≡ (split key).1
    → AreApart (split key) (split other)
    → set_key json key v d ≡ ok d'
    → get_key json other d' ≡ get_key json other d
unfolding set_key get_key
get_key-set_key_ne json key other v d d' laws valid apart done =
    set_at_other json laws (split key).0 (split key).1 (split other).0 (split other).1 v d d' apart
      valid done
