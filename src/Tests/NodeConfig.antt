-- ===== src/Tests/NodeConfig.antt =====
-- A document with one section, and a JSON of objects with one member, each written as a 0, the length of
-- the member's name, the name and the text without the blanks before it; a value is a tag and its content.
use mathlib.Core.Option
use nomctl.Prelude.{
  ℕ, ◌≡◌, ◌≢◌, inl, inr, refl, subst, ap, true, false, ℤ, pos, negsuc, Option, none, some, List, [],
  ◌∷◌, ◌++◌, Text, bytes, text_eq, Result, ok, err, length, take, drop, arith, nat_eqb, Bool-cases,
  if◌then◌else◌,
}
use nomctl.Prelude.Dict.{Dict, get, put}
use nomctl.NodeConfig.{
  Value, bool_value, text_value, int_value, texts_value, float_value, any_texts_value, other_value,
  Json, Document, split, cut_dot, get_key, set_key, is_null,
}
use nomctl.NodeConfig.Edits.{IsLawful, as_read, top_name, get_key-set_key_ne}

unfoldable strip : Text → Text
strip [] = []
strip (c ∷ t) = let rest = strip t in if nat_eqb c 32 then rest else c ∷ t

strip-strip : (t : Text) → strip (strip t) ≡ strip t
unfolding strip
strip-strip [] = refl
strip-strip (c ∷ t) = elim (Bool-cases (nat_eqb c 32)) [
  | inl blank ↦ rw blank (strip-strip t)
  | inr other ↦ rw other (rw other refl)
]

abbrev Any : Type 0
Any = Value ℤ Text

abbrev write_int : ℤ → Text
write_int (pos n) = 4 ∷ n ∷ []
write_int (negsuc n) = 5 ∷ n ∷ []

abbrev write_texts : List Text → Result Text Text
write_texts [] = ok (7 ∷ [])
write_texts (t ∷ []) = ok (6 ∷ t)
write_texts _ = err (bytes "not one text")

abbrev write_value : Any → Result Text Text
write_value (bool_value true) = ok (1 ∷ [])
write_value (bool_value false) = ok (2 ∷ [])
write_value (text_value t) = ok (3 ∷ t)
write_value (int_value n) = ok (write_int n)
write_value (float_value n) = ok (write_int n)
write_value (texts_value ts) = write_texts ts
write_value (any_texts_value ts) = write_texts ts
write_value (other_value t) = ok (8 ∷ t)

abbrev one_number : (ℕ → ℤ) → Text → Result Text Any
one_number f (n ∷ []) = ok (float_value (f n))
one_number f _ = err (bytes "not one number")

abbrev read_tagged : ℕ → Text → Result Text Any
read_tagged tag t =
    if nat_eqb tag 1
    then ok (bool_value true)
    else if nat_eqb tag 2
    then ok (bool_value false)
    else if nat_eqb tag 3
    then ok (text_value t)
    else if nat_eqb tag 4
    then one_number pos t
    else if nat_eqb tag 5
    then one_number negsuc t
    else if nat_eqb tag 6
    then ok (any_texts_value (t ∷ []))
    else if nat_eqb tag 7
    then ok (any_texts_value [])
    else if nat_eqb tag 8
    then ok (other_value t)
    else err (bytes "no value")

abbrev read_value : Text → Result Text Any
read_value [] = err (bytes "no value")
read_value (tag ∷ t) = read_tagged tag t

abbrev write_object : Dict Text Text → Result Text Text
write_object ((f, raw) ∷ []) = ok (0 ∷ length f ∷ (f ++ strip raw))
write_object _ = err (bytes "not one member")

abbrev read_object : Text → Option (Dict Text Text)
read_object (tag ∷ n ∷ t) = some ((take n t, drop n t) ∷ [])
read_object _ = none

abbrev json : Json
json = record {
  Float = ℤ;
  Other = Text;
  float_of = λ n. n;
  to_valid = λ t. t;
  marshal = write_value;
  unmarshal = λ t. read_value (strip t);
  object = read_object;
  of_object = write_object;
  trim_space = λ t. t;
}

take_whole : (s t : Text) → take (length s) (s ++ t) ≡ s
take_whole [] t = refl
take_whole (c ∷ s) t = ap (λ r. c ∷ r) (take_whole s t)

drop_whole : (s t : Text) → drop (length s) (s ++ t) ≡ t
drop_whole [] t = refl
drop_whole (c ∷ s) t = drop_whole s t

one_member :
    (m : Dict Text Text) (t : Text)
    → write_object m ≡ ok t
    → (m' : Dict Text Text) × (read_object t ≡ some m')
      × ((f : Text) → get f m' ≡ Option.map strip (get f m))
      × (is_null json t ≡ false)
unfolding get
one_member [] t done = absurd (ground arith)
one_member ((f, raw) ∷ []) t done =
    let same : 0 ∷ length f ∷ (f ++ strip raw) ≡ t = ground arith in
    subst
      (λ r.
        (m' : Dict Text Text) × (read_object r ≡ some m')
        × ((g : Text) → get g m' ≡ Option.map strip (get g ((f, raw) ∷ [])))
        × (is_null json r ≡ false))
      same
      (
        (f, strip raw) ∷ [],
        (rw (take_whole f (strip raw), drop_whole f (strip raw)) refl),
        (λ g. ground arith),
        refl,
      )
one_member (x ∷ y ∷ m) t done = absurd (ground arith)

abbrev written : Text → Result Text Text
written t = ok t

same_text :
    (t t' : Text) (v : Any)
    → written t ≡ written t'
    → read_value (strip t) ≡ ok v
    → read_value (strip t') ≡ ok v
same_text t t' v done h = subst (λ r. read_value (strip r) ≡ ok v) (ground arith) h

value_read :
    (v : Any) (t : Text) → write_value v ≡ ok t → read_value (strip t) ≡ ok (as_read json v)
unfolding strip
value_read (bool_value true) t done = same_text _ t _ done refl
value_read (bool_value false) t done = same_text _ t _ done refl
value_read (text_value s) t done = same_text _ t _ done refl
value_read (int_value (pos n)) t done = same_text _ t _ done refl
value_read (int_value (negsuc n)) t done = same_text _ t _ done refl
value_read (float_value (pos n)) t done = same_text _ t _ done refl
value_read (float_value (negsuc n)) t done = same_text _ t _ done refl
value_read (texts_value []) t done = same_text _ t _ done refl
value_read (texts_value (s ∷ [])) t done = same_text _ t _ done refl
value_read (texts_value (s ∷ r ∷ ts)) t done = absurd (ground arith)
value_read (any_texts_value []) t done = same_text _ t _ done refl
value_read (any_texts_value (s ∷ [])) t done = same_text _ t _ done refl
value_read (any_texts_value (s ∷ r ∷ ts)) t done = absurd (ground arith)
value_read (other_value s) t done = same_text _ t _ done refl

json-IsLawful : IsLawful json
json-IsLawful = record {
  value = value_read;
  names = λ t m parsed f raw there. refl;
  rewritten = strip;
  same_value = λ raw. ap read_value (strip-strip raw);
  members = λ m t names. one_member m t;
}

abbrev section_of : ℕ → Text
section_of n = 0 ∷ 8 ∷ (bytes "HTTPPort" ++ 4 ∷ n ∷ [])

abbrev document : Document
document = (bytes "Name", 3 ∷ bytes "a") ∷ (bytes "RPC", section_of 35997) ∷ []

abbrev with_port : Document
with_port = (bytes "Name", 3 ∷ bytes "a") ∷ (bytes "RPC", section_of 40000) ∷ []

abbrev with_name : Document
with_name = (bytes "Name", 3 ∷ bytes "b") ∷ (bytes "RPC", section_of 35997) ∷ []

sets_name : set_key json (bytes "Name") (text_value (bytes "b")) document ≡ ok with_name
unfolding set_key split cut_dot get put strip
sets_name = refl

names_differ : top_name (split (bytes "Name")) ≢ top_name (split (bytes "RPC.HTTPPort"))
unfolding split cut_dot
names_differ q = ground arith

get_key-set_key_ne_example :
    get_key json (bytes "RPC.HTTPPort") with_name ≡ get_key json (bytes "RPC.HTTPPort") document
get_key-set_key_ne_example =
    get_key-set_key_ne json (bytes "Name") (bytes "RPC.HTTPPort") (text_value (bytes "b")) document
      with_name json-IsLawful refl (inl names_differ) sets_name
