-- ===== src/Params.antt =====
-- params.go: the parameters of paths and queries, as values of fields. A float that a 32 bit field
-- takes is rounded by the library. The value field of a wrapper such as DoubleValue is no message,
-- so two rounds of `unmarshalFieldValue` and of `marshalFieldValue` are enough; `too_deep` is no
-- error of the source. An `invalid_parameter` names the path and holds the cause; the source leaves
-- out the cause of an error of JSON and names the kind and the text of the parameter.
pub mod Interface
pub mod Marshal
pub mod RoundTrip
pub mod Depth
pub mod Sample
mod Tests
use vanguard_go.Fields.Descriptors.{Reflection}
use vanguard_go.Number.{
  print_int, print_nat, unmarshal_int, unmarshal_number, unmarshal_uint, ℤ, pos,
}
use vanguard_go.Params.Interface.*
use vanguard_go.Prelude.{
  Bool, Bytes, List, Option, Result, [], bytes_eq, codes, contains_byte, err, false, get_elem?,
  has_prefix, if◌then◌else◌, is_empty, length, ltb, none, not, ok, some, true, zero, suc, ℕ, ◌%◌,
  ◌&&◌, ◌++◌, ◌==◌, ◌>>=◌, ◌^◌, ◌||◌, ◌∷◌,
}

pub data ParamError (E : Type 0) : Type 0 where
  library : E → ParamError E
  unknown_enum unsupported_message : Bytes → ParamError E
  unknown_enum_value : ℤ → ParamError E
  no_value_field too_deep no_fields out_of_range : ParamError E
  invalid_parameter : Bytes → ParamError E → ParamError E

abbrev pub lift : {A E : Type 0} → Result E A → Result (ParamError E) A
lift (ok a) = ok a
lift (err e) = err (library e)

abbrev pub is_named : Bytes → List Bytes → Bool
is_named name [] = false
is_named name (n ∷ names) = bytes_eq name n || is_named name names

-- The message types of isWKTWithScalarJSONMapping.
abbrev pub scalar_types : List Bytes
scalar_types =
    codes "BoolValue"
    ∷ (codes "BytesValue"
        ∷ (codes "DoubleValue"
            ∷ (codes "Duration"
                ∷ (codes "Empty"
                    ∷ (codes "FieldMask"
                        ∷ (codes "FloatValue"
                            ∷ (codes "Int32Value"
                                ∷ (codes "Int64Value"
                                    ∷ (codes "NullValue"
                                        ∷ (codes "StringValue"
                                            ∷ (codes "Timestamp"
                                                ∷ (codes "UInt32Value"
                                                    ∷ (codes "UInt64Value" ∷ [])))))))))))))

-- The widths of the integers: 2 to the power of 31, 32, 63 and 64.
abbrev pub half32 : ℕ
half32 = 2147483648

abbrev pub limit32 : ℕ
limit32 = 4294967296

abbrev pub half64 : ℕ
half64 = 9223372036854775808

abbrev pub limit64 : ℕ
limit64 = 18446744073709551616

module _ (r : Reflection) {E : Type 0} (ms : Messages r) (cs : Codecs ms.Msg ms.Float E) where
  open ms use {Msg, Float, kind}

  abbrev pub Field : Type 0
  Field = r.Field

  abbrev pub Val : Type 0
  Val = Value Msg Float

  unfoldable pub is_message_kind : Kind → Bool
  is_message_kind message_kind = true
  is_message_kind _ = false

  -- The name behind "google.protobuf." of a message field's type.
  unfoldable pub well_known_name : Field → Option Bytes
  unfolding is_message_kind
  well_known_name field = elim (r.message_of field) [
    | none ↦ none
    | some m ↦
        if is_message_kind (kind field) && has_prefix (r.full_name m) (codes "google.protobuf.")
        then some (ms.short_name m)
        else none
  ]

  unfoldable pub is_wkt_with_scalar_json_mapping : Field → Bool
  unfolding well_known_name
  is_wkt_with_scalar_json_mapping field = elim (well_known_name field) [
    | none ↦ false
    | some name ↦ is_named name scalar_types
  ]

  unfoldable pub is_parameter_type : Field → Bool
  unfolding is_wkt_with_scalar_json_mapping
  is_parameter_type field = elim (kind field) [
    | group_kind ↦ false
    | message_kind ↦ is_wkt_with_scalar_json_mapping field
    | _ ↦ true
  ]

  unfoldable pub unmarshal_bool : Bytes → Result (ParamError E) Val
  unmarshal_bool s =
      if bytes_eq s (codes "true")
      then ok (of_bool true)
      else if bytes_eq s (codes "false")
      then ok (of_bool false)
      else (do b ← lift (cs.json_bool s); ok (of_bool b))

  -- `bits` is 32 or 64; both keep the float in its width.
  unfoldable pub unmarshal_float : ℕ → Bytes → Result (ParamError E) Float
  unmarshal_float bits s =
      if bytes_eq s (codes "NaN")
      then ok cs.nan
      else if bytes_eq s (codes "Infinity")
      then ok cs.infinity
      else if bytes_eq s (codes "-Infinity")
      then ok cs.minus_infinity
      else lift (unmarshal_number (cs.json_float bits) (cs.parse_float bits) s)

  unfoldable pub unmarshal_bytes : Bytes → Result (ParamError E) Val
  unmarshal_bytes s = do
    decoded ←
        lift (cs.decode_base64 (contains_byte s b'-' || contains_byte s b'_') (length s % 4 == 0) s)
    ok (of_bytes decoded)

  unfoldable pub is_null_value : Field → Bool
  is_null_value field = elim (ms.enum_name field) [
    | none ↦ false
    | some name ↦ bytes_eq name (codes "google.protobuf.NullValue")
  ]

  unfoldable pub unmarshal_enum : Field → Bytes → Result (ParamError E) Val
  unfolding is_null_value
  unmarshal_enum field s = elim (unmarshal_int (cs.json_int 32) half32 s) [
    | ok x ↦ ok (of_enum x)
    | err _ ↦
        if is_null_value field && bytes_eq s (codes "null")
        then ok (of_enum (pos 0))
        else elim (ms.enum_by_name field s) [
          | none ↦ err (unknown_enum s)
          | some number ↦ ok (of_enum number)
        ]
  ]

  -- `quote`
  unfoldable pub quote : Bytes → Bytes
  quote [] = cs.quote_text []
  quote (c ∷ s) =
      if not (c == b'"') || not (cs.is_valid_json (c ∷ s)) then cs.quote_text (c ∷ s) else c ∷ s

  unfoldable pub unmarshal_field_message : Msg → Field → Bytes → Result (ParamError E) Val
  unmarshal_field_message msg field s = do
    filled ← lift (cs.proto_unmarshal s (ms.new_child msg field))
    ok (of_message filled)

  -- `unmarshalFieldWKT` of a message with this name; `again` is unmarshalFieldValue.
  unfoldable pub unmarshal_named :
      (Msg → Field → Bytes → Result (ParamError E) Val)
      → Msg
      → Field
      → Bytes
      → Bytes
      → Result (ParamError E) Val
  unfolding unmarshal_field_message quote
  unmarshal_named again msg field name s =
      if is_named name (codes "DoubleValue" ∷ (codes "FloatValue" ∷ []))
      then elim (r.by_name (ms.descriptor (ms.new_child msg field)) (codes "value")) [
        | none ↦ err no_value_field
        | some sub ↦ (do
          value ← again (ms.new_child msg field) sub s
          ok (of_message (ms.set (ms.new_child msg field) sub value)))
      ]
      else if is_named name (
          codes "Timestamp"
          ∷ (codes "Duration"
              ∷ (codes "BytesValue" ∷ (codes "StringValue" ∷ (codes "FieldMask" ∷ [])))))
      then unmarshal_field_message msg field (quote s)
      else unmarshal_field_message msg field s

  abbrev pub type_name : Field → Bytes
  type_name field = elim (r.message_of field) [ none ↦ [] | some m ↦ r.full_name m ]

  unfoldable pub unmarshal_field_wkt :
      (Msg → Field → Bytes → Result (ParamError E) Val)
      → Msg
      → Field
      → Bytes
      → Result (ParamError E) Val
  unfolding well_known_name unmarshal_named
  unmarshal_field_wkt again msg field s = elim (well_known_name field) [
    | none ↦ err (unsupported_message (type_name field))
    | some name ↦
        if is_named name scalar_types
        then unmarshal_named again msg field name s
        else err (unsupported_message (type_name field))
  ]

  abbrev pub as_value : {A : Type 0} → (A → Val) → Result E A → Result (ParamError E) Val
  as_value of_a (ok a) = ok (of_a a)
  as_value of_a (err e) = err (library e)

  -- `unmarshalFieldValue` of a field of this kind.
  unfoldable pub unmarshal_kind :
      (Msg → Field → Bytes → Result (ParamError E) Val)
      → Kind
      → Msg
      → Field
      → Bytes
      → Result (ParamError E) Val
  unfolding unmarshal_bool unmarshal_float unmarshal_bytes unmarshal_enum unmarshal_field_wkt
  unmarshal_kind again bool_kind msg field s = unmarshal_bool s
  unmarshal_kind again int32_kind msg field s =
      as_value of_int32 (unmarshal_int (cs.json_int 32) half32 s)
  unmarshal_kind again sint32_kind msg field s =
      as_value of_int32 (unmarshal_int (cs.json_int 32) half32 s)
  unmarshal_kind again sfixed32_kind msg field s =
      as_value of_int32 (unmarshal_int (cs.json_int 32) half32 s)
  unmarshal_kind again int64_kind msg field s =
      as_value of_int64 (unmarshal_int (cs.json_int 64) half64 s)
  unmarshal_kind again sint64_kind msg field s =
      as_value of_int64 (unmarshal_int (cs.json_int 64) half64 s)
  unmarshal_kind again sfixed64_kind msg field s =
      as_value of_int64 (unmarshal_int (cs.json_int 64) half64 s)
  unmarshal_kind again uint32_kind msg field s =
      as_value of_uint32 (unmarshal_uint (cs.json_uint 32) limit32 s)
  unmarshal_kind again fixed32_kind msg field s =
      as_value of_uint32 (unmarshal_uint (cs.json_uint 32) limit32 s)
  unmarshal_kind again uint64_kind msg field s =
      as_value of_uint64 (unmarshal_uint (cs.json_uint 64) limit64 s)
  unmarshal_kind again fixed64_kind msg field s =
      as_value of_uint64 (unmarshal_uint (cs.json_uint 64) limit64 s)
  unmarshal_kind again float_kind msg field s = do x ← unmarshal_float 32 s; ok (of_float32 x)
  unmarshal_kind again double_kind msg field s = do x ← unmarshal_float 64 s; ok (of_float64 x)
  unmarshal_kind again string_kind msg field s = ok (of_string s)
  unmarshal_kind again bytes_kind msg field s = unmarshal_bytes s
  unmarshal_kind again enum_kind msg field s = unmarshal_enum field s
  unmarshal_kind again message_kind msg field s = unmarshal_field_wkt again msg field s
  unmarshal_kind again group_kind msg field s = unmarshal_field_wkt again msg field s

  unfoldable pub unmarshal_within : ℕ → Msg → Field → Bytes → Result (ParamError E) Val
  unfolding unmarshal_kind
  unmarshal_within zero msg field s = err too_deep
  unmarshal_within (suc depth) msg field s =
      unmarshal_kind (unmarshal_within depth) (kind field) msg field s

  unfoldable pub unmarshal_field_value : Msg → Field → Bytes → Result (ParamError E) Val
  unfolding unmarshal_within
  unmarshal_field_value msg field s = unmarshal_within 2 msg field s
