-- ===== src/Bodies/Tests.antt =====
-- An HttpBody below a field of a message.
use vanguard_go.Bodies.{
  BodyCodec, body_content_type, decode_body, encode_body, encode_host, host_type, or_codec_error,
  walk_error, not_singular, read_chunk, set_body_http_body, walk_get,
}
use vanguard_go.Bodies.Verbatim.{HoldsBody, HttpBodies, encode_body-decode_body}
use vanguard_go.Fields.Descriptors.{Reflection}
use vanguard_go.Route.Target.{is_http_body}
use vanguard_go.Params.Interface.{
  Messages, Value, of_bool, of_bytes, of_string, bytes_kind, message_kind, string_kind,
}
use vanguard_go.Prelude.{
  Bytes, Option, [], arith, bytes_eq, bytes_eq→eq, codes, err, false, if◌then◌else◌, none, ok, refl,
  some, true, ◌∷◌, ◌≡◌,
}

-- A box has a payload, which is an HttpBody.
data Shape : Type 0 where
  box http_body : Shape

data Column : Type 0 where
  content_type contents payload : Column

abbrev column_name : Column → Bytes
column_name content_type = codes "content_type"
column_name contents = codes "data"
column_name payload = codes "payload"

abbrev find_column : Shape → Bytes → Option Column
find_column box part = if bytes_eq (column_name payload) part then some payload else none
find_column http_body part =
    if bytes_eq (column_name content_type) part
    then some content_type
    else if bytes_eq (column_name contents) part
    then some contents
    else none

find_column-name :
    (k : Shape) (part : Bytes) (c : Column) → find_column k part ≡ some c → column_name c ≡ part
find_column-name box part c h = ground (arith, bytes_eq→eq (column_name payload) part)
find_column-name http_body part c h =
    ground
      (arith, bytes_eq→eq (column_name content_type) part, bytes_eq→eq (column_name contents) part)

abbrev parcels : Reflection
parcels = record {
  Message = Shape;
  Field = Column;
  by_name = find_column;
  by_json_name = find_column;
  name = column_name;
  json_name = column_name;
  is_repeated = λ c. false;
  is_list = λ c. false;
  is_map = λ c. false;
  message_of = λ c. elim c [ content_type ↦ none | contents ↦ none | payload ↦ some http_body ];
  full_name = λ k. elim k [ box ↦ codes "Box" | http_body ↦ codes "google.api.HttpBody" ];
  by_name-name = find_column-name;
  by_json_name-json_name = find_column-name;
}

data Parcel : Type 0 where
  body_of : Bytes → Bytes → Parcel
  boxed : Parcel → Parcel

abbrev put_value : Parcel → Column → Value Parcel Unit → Parcel
put_value (body_of t s) content_type (of_string v) = body_of v s
put_value (body_of t s) contents (of_bytes v) = body_of t v
put_value m _ _ = m

abbrev value_in : Parcel → Column → Value Parcel Unit
value_in (body_of t s) content_type = of_string t
value_in (body_of t s) contents = of_bytes s
value_in _ _ = of_bool false

abbrev kind_of : Parcel → Shape
kind_of (body_of t s) = http_body
kind_of (boxed m) = box

abbrev payload_of : Parcel → Parcel
payload_of (boxed m) = m
payload_of (body_of t s) = body_of [] []

abbrev parcel_messages : Messages parcels
parcel_messages = record {
  Msg = Parcel;
  Float = Unit;
  kind =
      λ c. elim c [ content_type ↦ string_kind | contents ↦ bytes_kind | payload ↦ message_kind ];
  short_name = λ k. [];
  descriptor = kind_of;
  get = value_in;
  set = put_value;
  elements = λ m c. [];
  with_elements = λ m c vs. m;
  child = λ m c. payload_of m;
  with_child = λ m c x. boxed x;
  new_child = λ m c. body_of [] [];
  enum_name = λ c. none;
  enum_by_name = λ c name. none;
  enum_by_number = λ c z. none;
}

parcel_bodies : HttpBodies parcels parcel_messages
unfolding is_http_body
parcel_bodies = record {
  type_field = content_type;
  data_field = contents;
  has_type = has_type;
  has_data = has_data;
  set-descriptor = set-descriptor;
  set-type = set-type;
  set-data = set-data;
  child-with_child = λ m c x. refl;
}
  where
    has_type :
        (m : Parcel)
        → is_http_body parcels (kind_of m) ≡ true
        → find_column (kind_of m) (codes "content_type") ≡ some content_type
    has_type (body_of t s) h = refl
    has_type (boxed m) h = absurd (ground arith)

    has_data :
        (m : Parcel)
        → is_http_body parcels (kind_of m) ≡ true
        → find_column (kind_of m) (codes "data") ≡ some contents
    has_data (body_of t s) h = refl
    has_data (boxed m) h = absurd (ground arith)

    set-descriptor :
        (m : Parcel) (v w : Bytes)
        → kind_of (put_value (put_value m content_type (of_string v)) contents (of_bytes w))
          ≡ kind_of m
    set-descriptor (body_of t s) v w = refl
    set-descriptor (boxed m) v w = refl

    set-type :
        (m : Parcel) (v w : Bytes)
        → is_http_body parcels (kind_of m) ≡ true
        → value_in
            (put_value (put_value m content_type (of_string v)) contents (of_bytes w))
            content_type
          ≡ of_string v
    set-type (body_of t s) v w h = refl
    set-type (boxed m) v w h = absurd (ground arith)

    set-data :
        (m : Parcel) (v w : Bytes)
        → is_http_body parcels (kind_of m) ≡ true
        → value_in
            (put_value (put_value m content_type (of_string v)) contents (of_bytes w))
            contents
          ≡ of_bytes w
    set-data (body_of t s) v w h = refl
    set-data (boxed m) v w h = absurd (ground arith)

abbrev plain : BodyCodec Parcel Column Bytes Unit
plain = record {
  name = codes "json";
  unmarshal_read = λ body m. ok m;
  marshal_write = λ m. ok [];
  unmarshal_field = λ s m c. ok m;
  marshal_field = λ m c. ok (codes "null");
  read_all = λ body. ok body;
}

abbrev empty_box : Parcel
empty_box = boxed (body_of [] [])

payload_found :
    walk_get parcels parcel_messages plain (payload ∷ []) empty_box ≡ ok (body_of [] [], none)
unfolding walk_get
payload_found = refl

payload_is_body : is_http_body parcels http_body ≡ true
unfolding is_http_body
payload_is_body = refl

encode_body-decode_body_example :
    HoldsBody parcels parcel_messages plain (payload ∷ []) (codes "text/plain") (codes "hi") (
      set_body_http_body parcels parcel_messages plain
        (payload ∷ [])
        (codes "text/plain")
        (codes "hi")
        empty_box)
    × HoldsBody parcels parcel_messages plain (payload ∷ []) (codes "text/plain") (codes "hi") (
        decode_body parcels parcel_messages plain
          (codes "hi")
          (codes "text/plain")
          (payload ∷ [])
          empty_box)
encode_body-decode_body_example =
    encode_body-decode_body parcels parcel_messages plain parcel_bodies (payload ∷ []) empty_box
      (body_of [] []) (codes "text/plain") (codes "hi") (codes "hi") payload_found payload_is_body
      refl

encoded :
    encode_body parcels parcel_messages plain
      (payload ∷ (contents ∷ []))
      (boxed (body_of (codes "a") (codes "b")))
    ≡ ok (codes "null")
unfolding encode_body walk_get encode_host or_codec_error
encoded = refl

not_walked :
    encode_body parcels parcel_messages plain (contents ∷ (payload ∷ [])) empty_box
    ≡ err (not_singular (codes "data") (codes "Box"))
unfolding encode_body walk_get walk_error
not_walked = refl

one_chunk : read_chunk (codes "ab") ≡ some (codes "ab", [])
unfolding read_chunk
one_chunk = refl

typed :
    body_content_type parcels parcel_messages plain (payload ∷ (contents ∷ [])) empty_box
    ≡ ok (codes "application/json")
unfolding body_content_type walk_get host_type
typed = refl
