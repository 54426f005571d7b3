-- ===== src/Route/Target/Streams.antt =====
-- The streams that a route can carry: what `checkStreamType` decides.
use vanguard_go.Fields.Descriptors.{Reflection}
use vanguard_go.Prelude.{
  List, Option, Option-cases, [], arith, bytes_eq_iff, false, inl, inr, none, refl, some, true, ◌∷◌,
  ◌↔◌, ◌≡◌,
}
use vanguard_go.Route.Target.{
  RpcMethod, StreamType, bidi, check_stream_type, client, fields_or_none, http_body_type_name,
  is_http_body, is_http_body_field, is_http_body_path, is_http_body_request, is_http_body_response,
  last_of, server, unary,
}

module _ (r : Reflection) where
  open r use {Message, Field, is_list, is_map, message_of, full_name}

  -- The fields select a google.api.HttpBody in the message: the message itself, or a last field
  -- that is a singular message of that type.
  pub data SelectsHttpBody (fields : List Field) (msg : Message) : Type 0 where
    whole : fields ≡ [] → full_name msg ≡ http_body_type_name → SelectsHttpBody fields msg
    at_field :
        {field : Field} {child : Message}
        → last_of fields ≡ some field
        → is_list field ≡ false
        → is_map field ≡ false
        → message_of field ≡ some child
        → full_name child ≡ http_body_type_name
        → SelectsHttpBody fields msg

  -- The streams that a route can carry: none, or one whose streamed side is a google.api.HttpBody.
  pub data Carries (method : RpcMethod r) (request response : Option (List Field)) : Type 0 where
    no_stream : method.stream_type ≡ unary → Carries method request response
    client_stream :
        {fields : List Field}
        → method.stream_type ≡ client
        → request ≡ some fields
        → SelectsHttpBody fields method.input
        → Carries method request response
    server_stream :
        method.stream_type ≡ server
        → SelectsHttpBody (fields_or_none r response) method.output
        → Carries method request response

  is_http_body_iff :
      (msg : Message) → (is_http_body r msg ≡ true) ↔ (full_name msg ≡ http_body_type_name)
  unfolding is_http_body
  is_http_body_iff msg = bytes_eq_iff (full_name msg) http_body_type_name

  last_of-none : {A : Type 0} (xs : List A) → last_of xs ≡ none → xs ≡ []
  last_of-none [] h = refl
  last_of-none (x ∷ []) h = absurd (ground arith)
  last_of-none (x ∷ (y ∷ xs)) h = absurd (ground (arith, last_of-none (y ∷ xs)))

  selects_of_path :
      (fields : List Field) (msg : Message)
      → is_http_body_path r fields msg ≡ true
      → SelectsHttpBody fields msg
  unfolding is_http_body_path is_http_body_field
  selects_of_path fields msg h = elim (Option-cases (last_of fields)) [
    | inl e ↦ whole (last_of-none fields e) ((is_http_body_iff msg).0 (ground arith))
    | inr (field, e) ↦ elim (Option-cases (message_of field)) [
      | inl m ↦ absurd (ground arith)
      | inr (child, m) ↦
          at_field e (ground arith) (ground arith) m ((is_http_body_iff child).0 (ground arith))
    ]
  ]

  path_of_selects :
      (fields : List Field) (msg : Message)
      → SelectsHttpBody fields msg
      → is_http_body_path r fields msg ≡ true
  unfolding is_http_body_path is_http_body_field
  path_of_selects fields msg (whole e n) = rw e ((is_http_body_iff msg).1 n)
  path_of_selects fields msg (at_field {field} {child} e l m c n) =
      ground (arith, (is_http_body_iff child).1 n)

  -- `checkStreamType` finds nothing wrong exactly with the streams that a route can carry.
  pub check_stream_type_iff :
      (method : RpcMethod r) (request response : Option (List Field))
      → (check_stream_type r method request response ≡ none) ↔ Carries method request response
  unfolding check_stream_type is_http_body_request is_http_body_response
  check_stream_type_iff method request response = (to method.stream_type refl request refl, from)
    where
      to :
          (s : StreamType)
          → method.stream_type ≡ s
          → (q : Option (List Field)) → request ≡ q
          → check_stream_type r method request response ≡ none
          → Carries method request response
      to unary e q d h = no_stream e
      to client e none d h = absurd (ground arith)
      to client e (some fields) d h =
          client_stream e d (selects_of_path fields method.input (ground arith))
      to server e q d h =
          server_stream e (selects_of_path (fields_or_none r response) method.output (ground arith))
      to bidi e q d h = absurd (ground arith)

      from : Carries method request response → check_stream_type r method request response ≡ none
      from (no_stream e) = ground arith
      from (client_stream {fields} e d s) = ground (arith, path_of_selects fields method.input s)
      from (server_stream e s) =
          ground (arith, path_of_selects (fields_or_none r response) method.output s)
