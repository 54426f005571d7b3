-- ===== src/Bodies.antt =====
-- encoding.go, the bodies of requests and responses: `walkBodyFields`, `decodeBody`, `encodeBody`,
-- `setBodyHTTPBody`, `setHTTPBody`, `bodyContentType` and `readChunk`. A codec is a parameter, and
-- so is the reader of a body. A walk with `Mutable` ends in a change of the message that it
-- reaches, and gives the changed root; a walk with `Get` gives that message. A writer takes the
-- bytes that `encodeBody` gives.
pub mod Verbatim
mod Tests
use vanguard_go.Fields.Descriptors.{Reflection}
use vanguard_go.Params.Interface.{Messages, Value, of_bytes, of_string}
use vanguard_go.Prelude.{
  Bool, Bytes, List, Option, Result, [], codes, drop, err, if◌then◌else◌, is_empty, is_some, none,
  not, ok, some, take, ℕ, ◌&&◌, ◌++◌, ◌>>=◌, ◌∷◌,
}
use vanguard_go.Route.Target.{is_http_body}

-- `missing_field` and `not_of_type` are panics of the source: a message named HttpBody that lacks
-- a field, or has one of another type.
pub data BodyError (E : Type 0) : Type 0 where
  not_singular : Bytes → Bytes → BodyError E
  not_read : E → BodyError E
  of_codec : E → BodyError E
  missing_field : Bytes → BodyError E
  not_of_type : BodyError E

-- RESTCodec, and io.ReadAll of a body.
pub record BodyCodec (Msg Field Body E : Type 0) : Type 0 where
  pub name : Bytes
  pub unmarshal_read : Body → Msg → Result E Msg
  pub marshal_write : Msg → Result E Bytes
  pub unmarshal_field : Bytes → Msg → Field → Result E Msg
  pub marshal_field : Msg → Field → Result E Bytes
  pub read_all : Body → Result E Bytes

abbrev pub body_chunk_size : ℕ
body_chunk_size = 32768

-- `readChunk` of a body that is read without an error: the chunk and what is left, none for io.EOF.
unfoldable pub read_chunk : Bytes → Option (Bytes × Bytes)
read_chunk body =
    if is_empty body then none else some (take body_chunk_size body, drop body_chunk_size body)

module _ (r : Reflection) {Body E : Type 0} (ms : Messages r)
    (codec : BodyCodec (Messages.Msg ms) (Reflection.Field r) Body E) where
  open ms use {Msg, descriptor, child, with_child}

  -- A field that the walk goes through.
  unfoldable pub is_singular_message : r.Field → Bool
  is_singular_message field = is_some (r.message_of field) && not (r.is_repeated field)

  unfoldable pub walk_error : r.Field → Msg → BodyError E
  walk_error field host = not_singular (r.name field) (r.full_name (descriptor host))

  -- `walkBodyFields` with `Get`: the host, and the leaf, none for nil.
  unfoldable pub walk_get : List r.Field → Msg → Result (BodyError E) (Msg × Option r.Field)
  unfolding is_singular_message walk_error
  walk_get [] host = ok (host, none)
  walk_get (field ∷ []) host =
      if is_singular_message field then ok (child host field, none) else ok (host, some field)
  walk_get (field ∷ (f ∷ fields)) host =
      let inner = walk_get (f ∷ fields) (child host field) in
      if is_singular_message field then inner else err (walk_error field host)

  -- `walkBodyFields` with `Mutable`, and what its caller does with the host and the leaf.
  unfoldable pub walk_change :
      (Msg → Option r.Field → Result (BodyError E) Msg)
      → List r.Field
      → Msg
      → Result (BodyError E) Msg
  unfolding is_singular_message walk_error
  walk_change change [] host = change host none
  walk_change change (field ∷ []) host =
      if is_singular_message field
      then (do changed ← change (child host field) none; ok (with_child host field changed))
      else change host (some field)
  walk_change change (field ∷ (f ∷ fields)) host =
      let inner = walk_change change (f ∷ fields) (child host field) in
      if is_singular_message field
      then (do changed ← inner; ok (with_child host field changed))
      else err (walk_error field host)

  -- Fields().ByName(name)
  unfoldable pub field_named : Bytes → Msg → Result (BodyError E) r.Field
  field_named name msg = elim (r.by_name (descriptor msg) name) [
    | none ↦ err (missing_field name)
    | some field ↦ ok field
  ]

  -- `setHTTPBody`, whose descriptor is that of the message before the changes
  unfoldable pub set_http_body : Bytes → Bytes → Msg → Result (BodyError E) Msg
  unfolding field_named
  set_http_body content_type data_bytes msg = do
    type_field ← field_named (codes "content_type") msg
    data_field ← field_named (codes "data") msg
    ok (ms.set (ms.set msg type_field (of_string content_type)) data_field (of_bytes data_bytes))

  unfoldable pub set_body_http_body : List r.Field → Bytes → Bytes → Msg → Result (BodyError E) Msg
  unfolding walk_change set_http_body
  set_body_http_body fields content_type data_bytes msg =
      walk_change (λ host leaf. set_http_body content_type data_bytes host) fields msg

  unfoldable pub read_body : Body → Result (BodyError E) Bytes
  read_body body = elim (codec.read_all body) [ err e ↦ err (not_read e) | ok s ↦ ok s ]

  unfoldable pub or_codec_error : {A : Type 0} → Result E A → Result (BodyError E) A
  or_codec_error (ok a) = ok a
  or_codec_error (err e) = err (of_codec e)

  -- `decodeBody` behind its walk
  unfoldable pub decode_host : Body → Bytes → Msg → Option r.Field → Result (BodyError E) Msg
  unfolding set_http_body read_body or_codec_error is_http_body
  decode_host body content_type host none =
      if is_http_body r (descriptor host)
      then (do data_bytes ← read_body body; set_http_body content_type data_bytes host)
      else or_codec_error (codec.unmarshal_read body host)
  decode_host body content_type host (some leaf) = do
    data_bytes ← read_body body
    or_codec_error (codec.unmarshal_field data_bytes host leaf)

  unfoldable pub decode_body : Body → Bytes → List r.Field → Msg → Result (BodyError E) Msg
  unfolding decode_host walk_change
  decode_body body content_type fields msg = walk_change (decode_host body content_type) fields msg

  -- Value.Bytes and Value.String
  unfoldable pub bytes_of : Value Msg ms.Float → Result (BodyError E) Bytes
  bytes_of (of_bytes s) = ok s
  bytes_of _ = err not_of_type

  unfoldable pub string_of : Value Msg ms.Float → Result (BodyError E) Bytes
  string_of (of_string s) = ok s
  string_of _ = err not_of_type

  -- `encodeBody` behind its walk
  unfoldable pub encode_host : Msg → Option r.Field → Result (BodyError E) Bytes
  unfolding field_named bytes_of or_codec_error is_http_body
  encode_host host none =
      if is_http_body r (descriptor host)
      then (do data_field ← field_named (codes "data") host; bytes_of (ms.get host data_field))
      else or_codec_error (codec.marshal_write host)
  encode_host host (some leaf) = or_codec_error (codec.marshal_field host leaf)

  unfoldable pub encode_body : List r.Field → Msg → Result (BodyError E) Bytes
  unfolding walk_get encode_host
  encode_body fields msg = do (host, leaf) ← walk_get fields msg; encode_host host leaf

  unfoldable pub codec_type : Result (BodyError E) Bytes
  codec_type = ok (codes "application/" ++ codec.name)

  -- The type of a host that the walk has reached.
  unfoldable pub host_type : Msg → Option r.Field → Result (BodyError E) Bytes
  unfolding field_named string_of codec_type is_http_body
  host_type host none =
      if is_http_body r (descriptor host)
      then (do
        type_field ← field_named (codes "content_type") host
        string_of (ms.get host type_field))
      else codec_type
  host_type host (some leaf) = codec_type

  unfoldable pub body_content_type : List r.Field → Msg → Result (BodyError E) Bytes
  unfolding walk_get host_type codec_type
  body_content_type fields msg = elim (walk_get fields msg) [
    | err e ↦ codec_type
    | ok (host, leaf) ↦ host_type host leaf
  ]
