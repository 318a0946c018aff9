-- ===== src/NodeConfig.antt =====
-- The document of internal/nodeconfig/nodeconfig.go: `Get`, `Set`, `Unset`, `Keys`, `UnknownKeys`. JSON is a
-- parameter; a section is kept as its text, as in the source.
pub mod Edits
use nomctl.Prelude.{
  ℕ, Bool, true, false, not, ◌&&◌, ◌||◌, Option, none, some, List, [], ◌∷◌, ◌++◌, ℤ, Text, bytes,
  text_eq, ◌==◌, Result, ok, err, any, map, nat_eqb, text_ltb, sort_by, if◌then◌else◌,
}
use nomctl.Prelude.Dict.{Dict, get, put, remove}

-- The values that the document takes and gives: what `ParseValue` makes of a setting, which is an int or
-- a list of strings among others, and what encoding/json decodes into `any`, where numbers are float64 and
-- lists hold `any`.
pub data Value (F O : Type 0) : Type 0 where
  bool_value : Bool → Value F O
  text_value : Text → Value F O
  int_value : ℤ → Value F O
  texts_value : List Text → Value F O
  float_value : F → Value F O
  any_texts_value : List Text → Value F O
  other_value : O → Value F O

-- What the document takes from encoding/json and the standard library: values, and objects as maps from
-- names to texts; float64 and its rounding of an integer; `to_valid` puts U+FFFD for what is no UTF-8.
pub record Json : Type 1 where
  pub Float : Type 0
  pub Other : Type 0
  pub float_of : ℤ → Float
  pub to_valid : Text → Text
  pub marshal : Value Float Other → Result Text Text
  pub unmarshal : Text → Result Text (Value Float Other)
  pub object : Text → Option (Dict Text Text)
  pub of_object : Dict Text Text → Result Text Text
  pub trim_space : Text → Text

abbrev pub ValueOf : Json → Type 0
ValueOf json = Value json.Float json.Other

abbrev pub Document : Type 0
Document = Dict Text Text

abbrev pub schema_keys : List Text
schema_keys =
    bytes "Name"
    ∷ bytes "LogLevel"
    ∷ bytes "DataPath"
    ∷ bytes "WalletPath"
    ∷ bytes "GenesisFile"
    ∷ bytes "RPC.EnableHTTP"
    ∷ bytes "RPC.EnableWS"
    ∷ bytes "RPC.HTTPHost"
    ∷ bytes "RPC.HTTPPort"
    ∷ bytes "RPC.WSHost"
    ∷ bytes "RPC.WSPort"
    ∷ bytes "RPC.Endpoints"
    ∷ bytes "RPC.HTTPVirtualHosts"
    ∷ bytes "RPC.HTTPCors"
    ∷ bytes "RPC.WSOrigins"
    ∷ bytes "Net.ListenHost"
    ∷ bytes "Net.ListenPort"
    ∷ bytes "Net.MinPeers"
    ∷ bytes "Net.MinConnectedPeers"
    ∷ bytes "Net.MaxPeers"
    ∷ bytes "Net.MaxPendingPeers"
    ∷ bytes "Net.Seeders"
    ∷ bytes "Producer.Address"
    ∷ bytes "Producer.Index"
    ∷ bytes "Producer.KeyFilePath"
    ∷ bytes "Producer.Password"
    ∷ []

abbrev in_front : ℕ → Option (Text × Text) → Option (Text × Text)
in_front c none = none
in_front c (some (s, f)) = some (c ∷ s, f)

-- The text before and after the first dot.
unfoldable pub cut_dot : Text → Option (Text × Text)
cut_dot [] = none
cut_dot (c ∷ s) =
    let later = in_front c (cut_dot s) in if nat_eqb c b'.' then some ([], s) else later

-- A dot at the beginning does not count.
abbrev whole : Text → Option (Text × Text) → Text × Text
whole key none = ([], key)
whole key (some (s, f)) = if s == [] then ([], key) else (s, f)

unfoldable pub split : Text → Text × Text
split key = whole key (cut_dot key)

module _ (json : Json) where
  abbrev pub is_null : Text → Bool
  is_null raw = json.trim_space raw == bytes "null"

  abbrev not_object : {A : Type 0} → Text → Result Text A
  not_object section = err (bytes "section " ++ section ++ bytes " is not an object")

  abbrev pub found : Result Text (ValueOf json) → Result Text (Option (ValueOf json))
  found (ok v) = ok (some v)
  found (err e) = err e

  abbrev pub read_raw : Option Text → Result Text (Option (ValueOf json))
  read_raw none = ok none
  read_raw (some raw) = found (json.unmarshal raw)

  abbrev pub get_in : Text → Text → Option (Dict Text Text) → Result Text (Option (ValueOf json))
  get_in section field none = not_object section
  get_in section field (some m) = read_raw (get field m)

  abbrev pub get_section : Text → Text → Option Text → Result Text (Option (ValueOf json))
  get_section section field none = ok none
  get_section section field (some sec) =
      if is_null sec then ok none else get_in section field (json.object sec)

  abbrev pub get_at : Text → Text → Document → Result Text (Option (ValueOf json))
  get_at section field d =
      if section == [] then read_raw (get field d) else get_section section field (get section d)

  -- `Get`; none for a key that is not present.
  unfoldable pub get_key : Text → Document → Result Text (Option (ValueOf json))
  get_key key d = let (section, field) = split key in get_at section field d

  abbrev store : Text → Document → Result Text Text → Result Text Document
  store name d (ok raw) = ok (put name raw d)
  store name d (err e) = err e

  abbrev pub set_in : Text → Text → Text → Document → Option (Dict Text Text) → Result Text Document
  set_in section field enc d none = not_object section
  set_in section field enc d (some m) = store section d (json.of_object (put field enc m))

  abbrev pub set_section : Text → Text → Text → Document → Option Text → Result Text Document
  set_section section field enc d none = set_in section field enc d (some [])
  set_section section field enc d (some sec) =
      if is_null sec
      then set_in section field enc d (some [])
      else set_in section field enc d (json.object sec)

  abbrev pub set_at : Text → Text → Document → Result Text Text → Result Text Document
  set_at section field d (err e) = err e
  set_at section field d (ok enc) =
      if section == []
      then ok (put field enc d)
      else set_section section field enc d (get section d)

  unfoldable pub set_key : Text → (ValueOf json) → Document → Result Text Document
  set_key key value d =
      let (section, field) = split key in set_at section field d (json.marshal value)

  abbrev unset_rest : Text → Document → Dict Text Text → Result Text Document
  unset_rest section d [] = ok (remove section d)
  unset_rest section d m = store section d (json.of_object m)

  abbrev unset_in : Text → Text → Document → Option (Dict Text Text) → Result Text Document
  unset_in section field d none = not_object section
  unset_in section field d (some m) = unset_rest section d (remove field m)

  abbrev unset_section : Text → Text → Document → Option Text → Result Text Document
  unset_section section field d none = ok d
  unset_section section field d (some sec) =
      if is_null sec then ok d else unset_in section field d (json.object sec)

  unfoldable pub unset_key : Text → Document → Result Text Document
  unset_key key d =
      let (section, field) = split key in
      if section == [] then ok (remove field d) else unset_section section field d (get section d)

  abbrev names : Dict Text Text → List Text
  names [] = []
  names ((f, raw) ∷ m) = f ∷ names m

  abbrev is_section : Text → Bool
  is_section name = name == bytes "RPC" || name == bytes "Net" || name == bytes "Producer"

  abbrev keys_in : Text → Option (Dict Text Text) → List Text
  keys_in name none = name ∷ []
  keys_in name (some m) =
      if is_section name then map (λ f. name ++ b'.' ∷ f) (names m) else name ∷ []

  unfoldable pub collect_keys : Document → List Text
  collect_keys [] = []
  collect_keys ((name, raw) ∷ d) =
      (if is_null raw then name ∷ [] else keys_in name (json.object raw)) ++ collect_keys d

  unfoldable pub keys : Document → List Text
  keys d = sort_by text_ltb (collect_keys d)

  unfoldable pub unknown_of : List Text → List Text
  unknown_of [] = []
  unknown_of (k ∷ ks) =
      let rest = unknown_of ks in if any (λ s. s == k) schema_keys then rest else k ∷ rest

  abbrev unknown_keys : Document → List Text
  unknown_keys d = unknown_of (keys d)
