-- ===== src/Bodies/Verbatim.antt =====
-- An HttpBody passes through its message unchanged.
use vanguard_go.Bodies.{
  BodyCodec, BodyError, body_content_type, bytes_of, decode_body, decode_host, encode_body,
  encode_host, field_named, host_type, is_singular_message, read_body, set_body_http_body,
  set_http_body, string_of, walk_change, walk_get,
}
use vanguard_go.Fields.Descriptors.{Reflection}
use vanguard_go.Params.Interface.{Messages, of_bytes, of_string}
use vanguard_go.Prelude.{
  Bool-cases, Bytes, List, Option, Result, [], ap, arith, codes, inl, inr, none, ok, refl, some,
  true, ◌∙◌, ◌∷◌, ◌≡◌,
}
use vanguard_go.Route.Target.{is_http_body}

-- What is documented of a google.api.HttpBody and of changes of a message: its two fields, which
-- hold what was written last, and that a changed child is read back.
pub record HttpBodies (r : Reflection) (ms : Messages r) : Type 0 where
  pub type_field : r.Field
  pub data_field : r.Field
  pub has_type :
      (m : ms.Msg)
      → is_http_body r (ms.descriptor m) ≡ true
      → r.by_name (ms.descriptor m) (codes "content_type") ≡ some type_field
  pub has_data :
      (m : ms.Msg)
      → is_http_body r (ms.descriptor m) ≡ true
      → r.by_name (ms.descriptor m) (codes "data") ≡ some data_field
  pub set-descriptor :
      (m : ms.Msg) (content_type data_bytes : Bytes)
      → ms.descriptor
          (ms.set (ms.set m type_field (of_string content_type)) data_field (of_bytes data_bytes))
        ≡ ms.descriptor m
  pub set-type :
      (m : ms.Msg) (content_type data_bytes : Bytes)
      → is_http_body r (ms.descriptor m) ≡ true
      → ms.get
          (ms.set (ms.set m type_field (of_string content_type)) data_field (of_bytes data_bytes))
          type_field
        ≡ of_string content_type
  pub set-data :
      (m : ms.Msg) (content_type data_bytes : Bytes)
      → is_http_body r (ms.descriptor m) ≡ true
      → ms.get
          (ms.set (ms.set m type_field (of_string content_type)) data_field (of_bytes data_bytes))
          data_field
        ≡ of_bytes data_bytes
  pub child-with_child :
      (m : ms.Msg) (field : r.Field) (c : ms.Msg) → ms.child (ms.with_child m field c) field ≡ c

module _ (r : Reflection) {Body E : Type 0} (ms : Messages r)
    (codec : BodyCodec (Messages.Msg ms) (Reflection.Field r) Body E) where
  open ms use {Msg, descriptor, child, with_child}

  -- A change at the end of a walk is found there by the same walk.
  walk_get-walk_change :
      ((m : Msg) (field : r.Field) (c : Msg) → child (with_child m field c) field ≡ c)
      → (change : Msg → Option r.Field → Result (BodyError E) Msg)
      → (fields : List r.Field) (msg host host' : Msg)
      → walk_get r ms codec fields msg ≡ ok (host, none)
      → change host none ≡ ok host'
      → (changed : Msg) × (walk_change r ms codec change fields msg ≡ ok changed)
        × (walk_get r ms codec fields changed ≡ ok (host', none))
  unfolding walk_get walk_change
  walk_get-walk_change kept change [] msg host host' h e =
      let same : msg ≡ host = ground arith in (host', ap (λ m. change m none) same ∙ e, refl)
  walk_get-walk_change kept change (field ∷ []) msg host host' h e =
      elim (Bool-cases (is_singular_message r ms codec field)) [
        | inr not_so ↦ absurd (ground (arith, not_so, h))
        | inl is ↦
            let same : child msg field ≡ host = ground (arith, is, h) in
            let done : change (child msg field) none ≡ ok host' =
              ap (λ m. change m none) same ∙ e in
            (
              with_child msg field host',
              ground (arith, is, done),
              ground (arith, is, kept msg field host'),
            )
      ]
  walk_get-walk_change kept change (field ∷ (f ∷ fields)) msg host host' h e =
      elim (Bool-cases (is_singular_message r ms codec field)) [
        | inr not_so ↦ absurd (ground (arith, not_so, h))
        | inl is ↦
            let (inner, changed, found) =
              walk_get-walk_change kept change (f ∷ fields) (child msg field) host host'
                (ground (arith, is, h)) e in
            let there = ap (walk_get r ms codec (f ∷ fields)) (kept msg field inner) ∙ found in
            (with_child msg field inner, ground (arith, is, changed), ground (arith, is, there))
      ]

  module _ (laws : HttpBodies r ms) where
    abbrev changed_host : Bytes → Bytes → Msg → Msg
    changed_host content_type data_bytes host =
        ms.set (ms.set host laws.type_field (of_string content_type)) laws.data_field
          (of_bytes data_bytes)

    set_http_body_ok :
        (content_type data_bytes : Bytes) (host : Msg)
        → is_http_body r (descriptor host) ≡ true
        → set_http_body r ms codec content_type data_bytes host
          ≡ ok (changed_host content_type data_bytes host)
    unfolding set_http_body field_named
    set_http_body_ok content_type data_bytes host h =
        ground (arith, laws.has_type host h, laws.has_data host h)

    encode_host-changed :
        (content_type data_bytes : Bytes) (host : Msg)
        → is_http_body r (descriptor host) ≡ true
        → encode_host r ms codec (changed_host content_type data_bytes host) none ≡ ok data_bytes
    unfolding encode_host field_named bytes_of
    encode_host-changed content_type data_bytes host h =
        let changed = changed_host content_type data_bytes host in
        let is : is_http_body r (descriptor changed) ≡ true =
          ap (is_http_body r) (laws.set-descriptor host content_type data_bytes) ∙ h in
        rw (is, field_named, laws.has_data changed is, laws.set-data host content_type data_bytes h)
          refl

    host_type-changed :
        (content_type data_bytes : Bytes) (host : Msg)
        → is_http_body r (descriptor host) ≡ true
        → host_type r ms codec (changed_host content_type data_bytes host) none ≡ ok content_type
    unfolding host_type field_named string_of
    host_type-changed content_type data_bytes host h =
        let changed = changed_host content_type data_bytes host in
        let is : is_http_body r (descriptor changed) ≡ true =
          ap (is_http_body r) (laws.set-descriptor host content_type data_bytes) ∙ h in
        rw (is, field_named, laws.has_type changed is, laws.set-type host content_type data_bytes h)
          refl

  -- A result is a message in which the fields select a body with these bytes and this type.
  pub record HoldsBody (fields : List r.Field) (content_type data_bytes : Bytes)
      (result : Result (BodyError E) Msg) : Type 0 where
    pub changed : Msg
    pub is_changed : result ≡ ok changed
    pub encoded : encode_body r ms codec fields changed ≡ ok data_bytes
    pub typed : body_content_type r ms codec fields changed ≡ ok content_type

  HoldsBody-walk_change :
      HttpBodies r ms
      → (change : Msg → Option r.Field → Result (BodyError E) Msg)
      → (fields : List r.Field) (msg host : Msg) (content_type data_bytes : Bytes)
      → walk_get r ms codec fields msg ≡ ok (host, none)
      → is_http_body r (descriptor host) ≡ true
      → change host none ≡ set_http_body r ms codec content_type data_bytes host
      → HoldsBody fields content_type data_bytes (walk_change r ms codec change fields msg)
  unfolding encode_body body_content_type
  HoldsBody-walk_change laws change fields msg host content_type data_bytes found h e =
      let done = e ∙ set_http_body_ok laws content_type data_bytes host h in
      let (changed, run, there) =
        walk_get-walk_change laws.child-with_child change fields msg host _ found done in
      record {
        changed = changed;
        is_changed = run;
        encoded = rw (encode_body, there) (encode_host-changed laws content_type data_bytes host h);
        typed =
            rw (body_content_type, there) (host_type-changed laws content_type data_bytes host h);
      }

  -- When the body fields of a message select a google.api.HttpBody, a body passes through the
  -- message verbatim: after `setBodyHTTPBody`, and after `decodeBody` of a body that is read to its
  -- end, `encodeBody` of the changed message writes the same bytes, and `bodyContentType` gives
  -- the same type.
  pub encode_body-decode_body :
      HttpBodies r ms
      → (fields : List r.Field) (msg host : Msg) (content_type data_bytes : Bytes) (body : Body)
      → walk_get r ms codec fields msg ≡ ok (host, none)
      → is_http_body r (descriptor host) ≡ true
      → codec.read_all body ≡ ok data_bytes
      → HoldsBody fields content_type data_bytes
          (set_body_http_body r ms codec fields content_type data_bytes msg)
        × HoldsBody fields content_type data_bytes
            (decode_body r ms codec body content_type fields msg)
  unfolding set_body_http_body decode_body decode_host read_body
  encode_body-decode_body laws fields msg host content_type data_bytes body found h read = (
    HoldsBody-walk_change laws (λ m leaf. set_http_body r ms codec content_type data_bytes m) fields
        msg host content_type data_bytes found h refl,
    HoldsBody-walk_change laws (decode_host r ms codec body content_type) fields msg host
        content_type data_bytes found h (rw (decode_host, h, read_body, read) refl),
  )
