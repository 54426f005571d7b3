-- ===== src/Fields.antt =====
-- router.go, field paths: `resolvePathToFieldDescriptors`, `appendPathToFieldDescriptors` and
-- `resolveFieldDescriptorsToPath`. The descriptors are those of the package protoreflect, an
-- interface here. The loop over the rest of the path takes fuel, the length of the path.
pub mod Descriptors
pub mod Walk
pub mod Resolve
pub mod RoundTrip
pub mod Sample
mod Tests
use vanguard_go.Fields.Descriptors.{Reflection}
use vanguard_go.Prelude.{
  Bool, Bytes, List, Option, Result, [], cut, err, false, if◌then◌else◌, is_empty, length, none, ok,
  some, suc, true, zero, ℕ, ◌++◌, ◌>>=◌, ◌∷◌,
}

-- `out_of_fuel` is not an error of the source. `unknown_field` is the error that wraps
-- errUnknownField, the others are about the path and its part.
pub data PathError : Type 0 where
  empty_path : PathError
  unknown_field : Bytes → Bytes → PathError
  repeated_field : Bytes → Bytes → PathError
  not_a_message : Bytes → Bytes → PathError
  out_of_fuel : PathError

module _ (r : Reflection) where
  open r use {Message, Field, by_json_name, by_name, is_repeated, message_of, name, json_name}

  -- The field of a part, by its JSON name first if `from_json`.
  unfoldable pub find_field : Bool → Bytes → Message → Option Field
  find_field false part msg = by_name msg part
  find_field true part msg = elim (by_json_name msg part) [
    | some field ↦ some field
    | none ↦ by_name msg part
  ]

  -- The message that the loop goes on with, behind a field that is not the last.
  unfoldable pub child_message : Bytes → Bytes → Field → Result PathError Message
  child_message path part field =
      if is_repeated field
      then err (repeated_field path part)
      else elim (message_of field) [ none ↦ err (not_a_message path part) | some child ↦ ok child ]

  -- One round of the loop; `loop` is what follows it, with the fields so far, their last message
  -- and the rest of the path.
  unfoldable pub append_part :
      (List Field → Message → Bytes → Result PathError (List Field))
      → Bytes
      → Bool
      → List Field
      → Message
      → Bytes
      → Bytes
      → Result PathError (List Field)
  append_part loop path from_json result msg part remaining = elim (find_field from_json part msg) [
    | none ↦ err (unknown_field path part)
    | some field ↦
        if is_empty remaining
        then ok (result ++ field ∷ [])
        else (do child ← child_message path part field; loop (result ++ field ∷ []) child remaining)
  ]

  unfoldable pub append_from :
      ℕ → Bytes → Bool → List Field → Message → Bytes → Result PathError (List Field)
  append_from zero path from_json result msg remaining = err out_of_fuel
  append_from (suc fuel) path from_json result msg remaining =
      let (part, rest) = cut b'.' remaining in
      append_part (append_from fuel path from_json) path from_json result msg part rest

  unfoldable pub append_path_to_field_descriptors :
      List Field → Message → Bytes → Bool → Result PathError (List Field)
  append_path_to_field_descriptors result msg path from_json =
      if is_empty path
      then err empty_path
      else append_from (length path) path from_json result msg path

  unfoldable pub resolve_path_to_field_descriptors :
      Message → Bytes → Bool → Result PathError (List Field)
  resolve_path_to_field_descriptors msg path from_json =
      append_path_to_field_descriptors [] msg path from_json

  unfoldable pub field_name : Bool → Field → Bytes
  field_name true field = json_name field
  field_name false field = name field

  -- The loop that writes a '.' before each name but the first.
  unfoldable pub dotted_names : Bool → List Field → Bytes
  dotted_names to_json [] = []
  dotted_names to_json (field ∷ fields) =
      b'.' ∷ (field_name to_json field ++ dotted_names to_json fields)

  unfoldable pub resolve_field_descriptors_to_path : List Field → Bool → Bytes
  resolve_field_descriptors_to_path [] to_json = []
  resolve_field_descriptors_to_path (field ∷ fields) to_json =
      field_name to_json field ++ dotted_names to_json fields
