-- ===== src/Route/Target.antt =====
-- router.go, route targets: `makeTarget`, `checkStreamType` and `addRoute`, with `isHTTPBodyPath`,
-- `isHTTPBodyRequest` and `isHTTPBodyResponse` of encoding.go. The text of an error is its data.
pub mod Streams
pub mod Made
pub mod Added
pub mod Sample
mod Tests
use vanguard_go.Fields.{PathError, resolve_path_to_field_descriptors}
use vanguard_go.Fields.Descriptors.{Reflection}
use vanguard_go.Prelude.{
  Bool, Bytes, List, Option, Result, [], bytes_eq, codes, err, false, if◌then◌else◌, is_empty,
  is_some, length, ltb, none, ok, some, true, ◌++◌, ◌>>=◌, ◌||◌, ◌∷◌,
}
use vanguard_go.Route.Trie.{Trie, insert}
use vanguard_go.Template.{ParseError, PathVariable, parse_path_template}

-- connect.StreamType
pub data StreamType : Type 0 where
  unary client server bidi : StreamType

-- The pattern of an HTTP rule: a path, or a kind and a path for a custom one.
pub data Pattern : Type 0 where
  no_pattern : Pattern
  get put post delete patch : Bytes → Pattern
  custom : Bytes → Bytes → Pattern

pub record Binding : Type 0 where
  pub pattern : Pattern
  pub body : Bytes
  pub response_body : Bytes

-- `missing_field` is the panic of an index into no fields; the source never reaches it.
pub data TargetError : Type 0 where
  bad_path : PathError → TargetError
  request_body_not_single response_body_not_single : Bytes → TargetError
  repeated_variable : Bytes → TargetError
  missing_field : TargetError

-- Why REST cannot carry a stream.
pub data Unsupported : Type 0 where
  needs_body_request needs_body_response not_supported : StreamType → Unsupported

abbrev pub http_body_type_name : Bytes
http_body_type_name = codes "google.api.HttpBody"

-- fields[len(fields)-1]
abbrev pub last_of : {A : Type 0} → List A → Option A
last_of [] = none
last_of (x ∷ []) = some x
last_of (x ∷ (y ∷ xs)) = last_of (y ∷ xs)

-- The HTTP method and the path of a pattern.
unfoldable pub method_and_path : Pattern → Option (Bytes × Bytes)
method_and_path no_pattern = none
method_and_path (get path) = some (codes "GET", path)
method_and_path (put path) = some (codes "PUT", path)
method_and_path (post path) = some (codes "POST", path)
method_and_path (delete path) = some (codes "DELETE", path)
method_and_path (patch path) = some (codes "PATCH", path)
method_and_path (custom kind path) = some (kind, path)

module _ (r : Reflection) where
  open r use {Message, Field, is_list, is_map, message_of, full_name}

  -- What the routes use of a `method`: its spec and the messages of its descriptor.
  pub record RpcMethod : Type 0 where
    pub procedure : Bytes
    pub stream_type : StreamType
    pub input : Message
    pub output : Message

  pub record RouteTargetVar : Type 0 where
    pub variable : PathVariable
    pub fields : List Field

  -- Body fields are none for nil, and the empty list for the whole message.
  pub record RouteTarget : Type 0 where
    pub method : RpcMethod
    pub http_method : Bytes
    pub template : Bytes
    pub pattern : Bytes
    pub request_body_field_path : Bytes
    pub request_body_fields : Option (List Field)
    pub response_body_field_path : Bytes
    pub response_body_fields : Option (List Field)
    pub vars : List RouteTargetVar
    pub unsupported : Option Unsupported

  pub data RouteError : Type 0 where
    invalid_pattern blank_method blank_template : RouteError
    bad_template : ParseError → RouteError
    bad_target : TargetError → RouteError
    already_exists : RouteTarget → Bytes → Bytes → RouteError

  unfoldable pub is_http_body : Message → Bool
  is_http_body msg = bytes_eq (full_name msg) http_body_type_name

  unfoldable pub is_http_body_field : Field → Bool
  unfolding is_http_body
  is_http_body_field field =
      if is_list field || is_map field
      then false
      else elim (message_of field) [ none ↦ false | some msg ↦ is_http_body msg ]

  unfoldable pub is_http_body_path : List Field → Message → Bool
  unfolding is_http_body_field
  is_http_body_path fields msg = elim (last_of fields) [
    | none ↦ is_http_body msg
    | some field ↦ is_http_body_field field
  ]

  -- len of nil is 0
  abbrev pub fields_or_none : Option (List Field) → List Field
  fields_or_none none = []
  fields_or_none (some fields) = fields

  unfoldable pub is_http_body_request : Option (List Field) → Message → Bool
  unfolding is_http_body_path
  is_http_body_request none msg = false
  is_http_body_request (some fields) msg = is_http_body_path fields msg

  unfoldable pub is_http_body_response : Option (List Field) → Message → Bool
  unfolding is_http_body_path
  is_http_body_response fields msg = is_http_body_path (fields_or_none fields) msg

  -- none for a nil error
  unfoldable pub check_stream_type :
      RpcMethod → Option (List Field) → Option (List Field) → Option Unsupported
  unfolding is_http_body_request is_http_body_response
  check_stream_type method request_fields response_fields = elim method.stream_type [
    | unary ↦ none
    | client ↦
        if is_http_body_request request_fields method.input
        then none
        else some (needs_body_request client)
    | server ↦
        if is_http_body_response response_fields method.output
        then none
        else some (needs_body_response server)
    | bidi ↦ some (not_supported bidi)
  ]

  unfoldable pub single_field : TargetError → List Field → Result TargetError (Option (List Field))
  single_field not_single fields =
      if ltb 1 (length fields) then err not_single else ok (some fields)

  unfoldable pub resolve_fields : Message → Bytes → Result TargetError (List Field)
  resolve_fields msg path = elim (resolve_path_to_field_descriptors r msg path false) [
    | err e ↦ err (bad_path e)
    | ok fields ↦ ok fields
  ]

  unfoldable pub body_fields :
      TargetError → Message → Bytes → Result TargetError (Option (List Field))
  body_fields not_single msg path =
      if bytes_eq path (codes "*")
      then ok (some [])
      else if is_empty path
      then ok none
      else (do fields ← resolve_fields msg path; single_field not_single fields)

  unfoldable pub target_var : PathVariable → List Field → Result TargetError RouteTargetVar
  target_var variable fields = elim (last_of fields) [
    | none ↦ err missing_field
    | some field ↦
        if is_list field
        then err (repeated_variable variable.field_path)
        else ok (record { variable = variable; fields = fields })
  ]

  unfoldable pub target_vars :
      Message → List PathVariable → Result TargetError (List RouteTargetVar)
  target_vars msg [] = ok []
  target_vars msg (variable ∷ variables) = do
    fields ← resolve_fields msg variable.field_path
    var ← target_var variable fields
    vars ← target_vars msg variables
    ok (var ∷ vars)

  -- `makeTarget`; the source names the request body in the error about the response body.
  unfoldable pub make_target :
      RpcMethod
      → Bytes
      → Bytes
      → Bytes
      → Bytes
      → List PathVariable
      → Bytes
      → Result TargetError RouteTarget
  make_target method http_method request_body response_body template variables pattern = do
    request_fields ← body_fields (request_body_not_single request_body) method.input request_body
    response_fields ←
        body_fields (response_body_not_single request_body) method.output response_body
    vars ← target_vars method.input variables
    ok (record {
      method = method;
      http_method = http_method;
      template = template;
      pattern = pattern;
      request_body_field_path = request_body;
      request_body_fields = request_fields;
      response_body_field_path = response_body;
      response_body_fields = response_fields;
      vars = vars;
      unsupported = check_stream_type method request_fields response_fields;
    })

  -- The end of `addRoute`: the target goes into the trie.
  unfoldable pub insert_route :
      Bytes → RouteTarget → Trie RouteTarget → Trie RouteTarget × Result RouteError RouteTarget
  insert_route http_method target t =
      let (t', existing) = insert http_method target.template target t in
      elim existing [
        | none ↦ (t', ok target)
        | some other ↦ (t', err (already_exists other target.template http_method))
      ]

  -- `addRoute` up to the insertion: the HTTP method and the target.
  unfoldable pub rule_target : RpcMethod → Binding → Result RouteError (Bytes × RouteTarget)
  rule_target method rule = elim (method_and_path rule.pattern) [
    | none ↦ err invalid_pattern
    | some (http_method, template) ↦
        if is_empty http_method
        then err blank_method
        else if is_empty template
        then err blank_template
        else elim (parse_path_template template) [
          | err e ↦ err (bad_template e)
          | ok (canonical, variables) ↦
              elim (make_target method http_method rule.body rule.response_body canonical variables
                (http_method ++ (codes " " ++ template))) [
                  | err e ↦ err (bad_target e)
                  | ok target ↦ ok (http_method, target)
                ]
        ]
  ]

  unfoldable pub add_route :
      RpcMethod → Binding → Trie RouteTarget → Trie RouteTarget × Result RouteError RouteTarget
  add_route method rule t = elim (rule_target method rule) [
    | err e ↦ (t, err e)
    | ok (http_method, target) ↦ insert_route http_method target t
  ]
