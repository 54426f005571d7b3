-- ===== src/Params/Interface.antt =====
-- What params.go and encoding.go use of protoreflect's messages, and of the libraries that print
-- and parse scalars.
use vanguard_go.Fields.Descriptors.{Reflection}
use vanguard_go.Number.{ℤ}
use vanguard_go.Prelude.{Bool, Bytes, List, Option, Result, ℕ, ◌≡◌}

-- protoreflect.Kind
pub data Kind : Type 0 where
  bool_kind enum_kind string_kind bytes_kind message_kind group_kind : Kind
  int32_kind sint32_kind sfixed32_kind : Kind
  int64_kind sint64_kind sfixed64_kind : Kind
  uint32_kind fixed32_kind uint64_kind fixed64_kind : Kind
  float_kind double_kind : Kind

-- protoreflect.Value of a scalar or of a message.
pub data Value (Msg Float : Type 0) : Type 0 where
  of_bool : Bool → Value Msg Float
  of_int32 of_int64 of_enum : ℤ → Value Msg Float
  of_uint32 of_uint64 : ℕ → Value Msg Float
  of_float32 of_float64 : Float → Value Msg Float
  of_string of_bytes : Bytes → Value Msg Float
  of_message : Msg → Value Msg Float

-- Messages, changed by a new message. `child` is Get(field).Message() and Mutable(field).Message();
-- `with_child` is the message after a change of that child. `new_child` is
-- NewField(field).Message(). `enum_name` is the full name of the field's enum, none for nil.
pub record Messages (r : Reflection) : Type 1 where
  pub Msg : Type 0
  pub Float : Type 0
  pub kind : r.Field → Kind
  pub short_name : r.Message → Bytes
  pub descriptor : Msg → r.Message
  pub get : Msg → r.Field → Value Msg Float
  pub set : Msg → r.Field → Value Msg Float → Msg
  pub elements : Msg → r.Field → List (Value Msg Float)
  pub with_elements : Msg → r.Field → List (Value Msg Float) → Msg
  pub child : Msg → r.Field → Msg
  pub with_child : Msg → r.Field → Msg → Msg
  pub new_child : Msg → r.Field → Msg
  pub enum_name : r.Field → Option Bytes
  pub enum_by_name : r.Field → Bytes → Option ℤ
  pub enum_by_number : r.Field → ℤ → Option Bytes

-- A field that is written is read back.
pub record IsLawful (r : Reflection) (ms : Messages r) : Type 0 where
  pub get-set :
      (m : ms.Msg) (field : r.Field) (v : Value ms.Msg ms.Float)
      → ms.get (ms.set m field v) field ≡ v
  pub child-with_child :
      (m : ms.Msg) (field : r.Field) (c : ms.Msg) → ms.child (ms.with_child m field c) field ≡ c
  pub elements-with_elements :
      (m : ms.Msg) (field : r.Field) (vs : List (Value ms.Msg ms.Float))
      → ms.elements (ms.with_elements m field vs) field ≡ vs

-- json.Unmarshal into a type and json.Marshal of a float, strconv.ParseFloat (none for an error),
-- the encodings of base64 (`decode_base64 url padded`), strconv.AppendQuote and Unquote,
-- json.Valid, and protojson, which fills the message that it is given.
pub record Codecs (Msg Float E : Type 0) : Type 0 where
  pub json_bool : Bytes → Result E Bool
  pub json_int : ℕ → Bytes → Result E ℤ
  pub json_uint : ℕ → Bytes → Result E ℕ
  pub json_float : ℕ → Bytes → Result E Float
  pub parse_float : ℕ → Bytes → Option Float
  pub print_float : ℕ → Float → Result E Bytes
  pub nan : Float
  pub infinity : Float
  pub minus_infinity : Float
  pub is_nan : Float → Bool
  pub is_infinity : Float → Bool
  pub is_minus_infinity : Float → Bool
  pub decode_base64 : Bool → Bool → Bytes → Result E Bytes
  pub encode_base64_url : Bytes → Bytes
  pub is_valid_json : Bytes → Bool
  pub quote_text : Bytes → Bytes
  pub unquote_text : Bytes → Result E Bytes
  pub proto_unmarshal : Bytes → Msg → Result E Msg
  pub proto_marshal : Msg → Result E Bytes
