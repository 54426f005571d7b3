-- ===== src/Fields/RoundTrip.antt =====
-- From a path to its fields and back.
use vanguard_go.Fields.{
  dotted_names, field_name, find_field, resolve_field_descriptors_to_path,
  resolve_path_to_field_descriptors,
}
use vanguard_go.Fields.Descriptors.{Reflection}
use vanguard_go.Fields.Resolve.{IsPart, resolve-Walk, resolve-Walked}
use vanguard_go.Fields.Walk.{Walk, descend, last}
use vanguard_go.Prelude.{
  All, append-nil, Bool, Bytes, List, [], ap, ap₂, codes, false, join, map, ok, sym, true, ◌++◌,
  ◌∙◌, ◌∷◌, ◌≡◌, ◌⊎◌,
}

module _ (r : Reflection) where
  open r use {Message, Field, by_name-name, name, json_name, by_json_name-json_name, by_json_name}

  names_join :
      (to_json : Bool) (field : Field) (fields : List Field)
      → resolve_field_descriptors_to_path r (field ∷ fields) to_json
        ≡ join (map (field_name r to_json) (field ∷ fields)) (codes ".")
  unfolding resolve_field_descriptors_to_path dotted_names
  names_join to_json field [] = append-nil (field_name r to_json field)
  names_join to_json field (f ∷ fields) =
      ap (λ t. field_name r to_json field ++ (b'.' ∷ t)) (names_join to_json f fields)

  Walk-names :
      {msg : Message} {parts : List Bytes} {fields : List Field}
      → Walk r false msg parts fields
      → map (field_name r false) fields ≡ parts
  unfolding find_field field_name
  Walk-names {msg} (last {part} {field} f) = ap (λ n. n ∷ []) (by_name-name msg part field f)
  Walk-names {msg} (descend {part} {field} f s m w) =
      ap₂ (λ n ns. n ∷ ns) (by_name-name msg part field f) (Walk-names w)

  Walk-join :
      (to_json : Bool) {from_json : Bool} {msg : Message} {parts : List Bytes} {fields : List Field}
      → Walk r from_json msg parts fields
      → resolve_field_descriptors_to_path r fields to_json
        ≡ join (map (field_name r to_json) fields) (codes ".")
  Walk-join to_json (last {field} f) = names_join to_json field []
  Walk-join to_json (descend {field} {fields} f s m w) = names_join to_json field fields

  -- The proto names of the fields that a path resolves to, joined again, are the path, but for one
  -- '.' that it may end in.
  pub resolve_round_trip :
      (msg : Message) (path : Bytes) (fields : List Field)
      → resolve_path_to_field_descriptors r msg path false ≡ ok fields
      → (path ≡ resolve_field_descriptors_to_path r fields false)
        ⊎ (path ≡ resolve_field_descriptors_to_path r fields false ++ codes ".")
  resolve_round_trip msg path fields h =
      let w = resolve-Walked r msg path false fields h in
      let same : join w.parts (codes ".") ≡ resolve_field_descriptors_to_path r fields false =
        sym (Walk-join false w.walk ∙ ap (λ ps. join ps (codes ".")) (Walk-names w.walk)) in
      rw same at w.path_of

  -- Fields that are found from the message along their JSON names, none empty or with a '.', are
  -- found again along the path of those names.
  pub resolve_json_round_trip :
      (msg : Message) (fields : List Field)
      → All IsPart (map (field_name r true) fields)
      → Walk r true msg (map (field_name r true) fields) fields
      → resolve_path_to_field_descriptors r msg
          (resolve_field_descriptors_to_path r fields true)
          true
        ≡ ok fields
  resolve_json_round_trip msg fields h w =
      rw (Walk-join true w) (resolve-Walk r msg true (map (field_name r true) fields) fields h w)
