-- ===== src/Params/Marshal.antt =====
-- params.go: values as parameters, and the parameters of a message by the fields of a path.
-- `mismatch` is the panic of a value that is not of its field's kind; `fields` of a path are never
-- empty, where Go would panic too.
use vanguard_go.Fields.Descriptors.{Reflection}
use vanguard_go.Fields.{resolve_field_descriptors_to_path}
use vanguard_go.Number.{print_int, print_nat, ℤ}
use vanguard_go.Params.{
  ParamError, invalid_parameter, lift, is_named, no_fields, no_value_field, out_of_range,
  scalar_types, too_deep, type_name, unknown_enum_value, unmarshal_field_value, unsupported_message,
  well_known_name,
}
use vanguard_go.Params.Interface.{
  Messages, Codecs, Kind, Value, of_bool, of_int32, of_int64, of_enum, of_uint32, of_uint64,
  of_float32, of_float64, of_string, of_bytes, of_message, enum_kind, string_kind, bytes_kind,
  message_kind, group_kind, float_kind, double_kind,
}
use vanguard_go.Prelude.{
  Bool, Bytes, List, Result, [], codes, err, false, get_elem?, if◌then◌else◌, length, ltb, none, ok,
  some, true, zero, suc, ℕ, ◌++◌, ◌>>=◌, ◌∷◌,
}

module _ (r : Reflection) {E : Type 0} (ms : Messages r) (cs : Codecs ms.Msg ms.Float E)
    (mismatch : ParamError E) where
  open ms use {Msg, Float, kind}

  -- json.Marshal of a Boolean
  abbrev pub print_bool : Bool → Bytes
  print_bool true = codes "true"
  print_bool false = codes "false"

  unfoldable pub marshal_float : ℕ → Float → Result (ParamError E) Bytes
  marshal_float bits x =
      if cs.is_nan x
      then ok (codes "NaN")
      else if cs.is_infinity x
      then ok (codes "Infinity")
      else if cs.is_minus_infinity x
      then ok (codes "-Infinity")
      else lift (cs.print_float bits x)

  unfoldable pub marshal_enum : r.Field → ℤ → Result (ParamError E) Bytes
  marshal_enum field number = elim (ms.enum_by_number field number) [
    | none ↦ err (unknown_enum_value number)
    | some name ↦ ok name
  ]

  -- The types whose JSON is a string.
  unfoldable pub unquote_named : Bytes → Bytes → Result (ParamError E) Bytes
  unquote_named name text =
      if is_named name (
        codes "Timestamp"
        ∷ (codes "Duration"
            ∷ (codes "StringValue"
                ∷ (codes "FieldMask" ∷ (codes "Int64Value" ∷ (codes "UInt64Value" ∷ []))))))
      then lift (cs.unquote_text text)
      else ok text

  unfoldable pub marshal_message : Bytes → Msg → Result (ParamError E) Bytes
  unfolding unquote_named
  marshal_message name m = do text ← lift (cs.proto_marshal m); unquote_named name text

  -- `marshalFieldWKT`; `again` is marshalFieldValue.
  unfoldable pub marshal_field_wkt :
      (r.Field → Value Msg Float → Result (ParamError E) Bytes)
      → r.Field
      → Msg
      → Result (ParamError E) Bytes
  unfolding well_known_name marshal_message
  marshal_field_wkt again field m = elim (well_known_name r ms cs field) [
    | none ↦ err (unsupported_message (type_name r ms cs field))
    | some name ↦
        if is_named name scalar_types
        then (if is_named name
              (codes "BytesValue" ∷ (codes "DoubleValue" ∷ (codes "FloatValue" ∷ [])))
            then elim (r.by_name (ms.descriptor m) (codes "value")) [
              | none ↦ err no_value_field
              | some sub ↦ again sub (ms.get m sub)
            ]
            else marshal_message name m)
        else err (unsupported_message (type_name r ms cs field))
  ]

  unfoldable pub marshal_float_value : ℕ → Value Msg Float → Result (ParamError E) Bytes
  unfolding marshal_float
  marshal_float_value bits (of_float32 x) = marshal_float bits x
  marshal_float_value bits (of_float64 x) = marshal_float bits x
  marshal_float_value bits _ = err mismatch

  -- json.Marshal(value.Interface()) of a Boolean or an integer
  unfoldable pub marshal_json : Value Msg Float → Result (ParamError E) Bytes
  unfolding print_int print_nat
  marshal_json (of_bool b) = ok (print_bool b)
  marshal_json (of_int32 z) = ok (print_int z)
  marshal_json (of_int64 z) = ok (print_int z)
  marshal_json (of_uint32 n) = ok (print_nat n)
  marshal_json (of_uint64 n) = ok (print_nat n)
  marshal_json _ = err mismatch

  unfoldable pub marshal_string : Value Msg Float → Result (ParamError E) Bytes
  marshal_string (of_string s) = ok s
  marshal_string _ = err mismatch

  unfoldable pub marshal_bytes : Value Msg Float → Result (ParamError E) Bytes
  marshal_bytes (of_bytes s) = ok (cs.encode_base64_url s)
  marshal_bytes _ = err mismatch

  unfoldable pub marshal_enum_value : r.Field → Value Msg Float → Result (ParamError E) Bytes
  unfolding marshal_enum
  marshal_enum_value field (of_enum z) = marshal_enum field z
  marshal_enum_value field _ = err mismatch

  unfoldable pub marshal_message_value :
      (r.Field → Value Msg Float → Result (ParamError E) Bytes)
      → r.Field
      → Value Msg Float
      → Result (ParamError E) Bytes
  unfolding marshal_field_wkt
  marshal_message_value again field (of_message m) = marshal_field_wkt again field m
  marshal_message_value again field _ = err mismatch

  -- `marshalFieldValue` of a field of this kind.
  unfoldable pub marshal_kind :
      (r.Field → Value Msg Float → Result (ParamError E) Bytes)
      → Kind
      → r.Field
      → Value Msg Float
      → Result (ParamError E) Bytes
  unfolding marshal_json marshal_float_value marshal_string marshal_bytes marshal_enum_value
      marshal_message_value
  marshal_kind again float_kind field v = marshal_float_value 32 v
  marshal_kind again double_kind field v = marshal_float_value 64 v
  marshal_kind again string_kind field v = marshal_string v
  marshal_kind again bytes_kind field v = marshal_bytes v
  marshal_kind again enum_kind field v = marshal_enum_value field v
  marshal_kind again message_kind field v = marshal_message_value again field v
  marshal_kind again group_kind field v = marshal_message_value again field v
  marshal_kind again _ field v = marshal_json v

  unfoldable pub marshal_within : ℕ → r.Field → Value Msg Float → Result (ParamError E) Bytes
  unfolding marshal_kind
  marshal_within zero field v = err too_deep
  marshal_within (suc depth) field v = marshal_kind (marshal_within depth) (kind field) field v

  unfoldable pub marshal_field_value : r.Field → Value Msg Float → Result (ParamError E) Bytes
  unfolding marshal_within
  marshal_field_value field v = marshal_within 2 field v

  -- `setParameter`: down to the message of the last field, whose value is set or appended.
  unfoldable pub set_leaf : Msg → r.Field → Bytes → Result (ParamError E) Msg
  unfolding unmarshal_field_value
  set_leaf msg field param = do
    value ← unmarshal_field_value r ms cs msg field param
    ok (
        if r.is_list field
        then ms.with_elements msg field (ms.elements msg field ++ (value ∷ []))
        else ms.set msg field value)

  unfoldable pub set_path : Msg → List r.Field → Bytes → Result (ParamError E) Msg
  unfolding set_leaf
  set_path msg [] param = err no_fields
  set_path msg (field ∷ []) param = set_leaf msg field param
  set_path msg (field ∷ (f ∷ fields)) param = do
    changed ← set_path (ms.child msg field) (f ∷ fields) param
    ok (ms.with_child msg field changed)

  unfoldable pub set_parameter : Msg → List r.Field → Bytes → Result (ParamError E) Msg
  unfolding set_path resolve_field_descriptors_to_path
  set_parameter msg fields param = elim (set_path msg fields param) [
    | ok changed ↦ ok changed
    | err e ↦ err (invalid_parameter (resolve_field_descriptors_to_path r fields false) e)
  ]

  -- The value of the last field: of a list the element at the index, which the source tests to be
  -- no more than the length.
  unfoldable pub leaf_value : Msg → r.Field → ℕ → Result (ParamError E) (Value Msg Float)
  leaf_value msg field index =
      if r.is_list field
      then (if ltb (length (ms.elements msg field)) index
          then err out_of_range
          else elim (get_elem? (ms.elements msg field) index) [
            | none ↦ err mismatch
            | some v ↦ ok v
          ])
      else ok (ms.get msg field)

  unfoldable pub get_parameter : Msg → List r.Field → ℕ → Result (ParamError E) Bytes
  unfolding leaf_value marshal_field_value
  get_parameter msg [] index = err no_fields
  get_parameter msg (field ∷ []) index = do
    value ← leaf_value msg field index
    marshal_field_value field value
  get_parameter msg (field ∷ (f ∷ fields)) index =
      get_parameter (ms.child msg field) (f ∷ fields) index
