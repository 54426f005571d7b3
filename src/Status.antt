-- ===== src/Status.antt =====
-- errors.go, and the errors of httprule.go: the classification of a Go error, its
-- google.rpc.Status, the HTTP reply that carries it, and the error that a client makes of such a
-- reply. How a chain of Go errors is searched, the codec of the body and the texts of the libraries
-- are parameters. Codes are 32 bits wide, a signed one by its bits.
pub mod Codes
pub mod Errors
pub mod Replies
mod Tests
use vanguard_go.Prelude.{
  inl, inr, zero, suc, ◌⊎◌, Bool, Bytes, List, Option, Result, [], codes, cut_last, err, false,
  if◌then◌else◌, is_empty, leb, length, map, none, ok, some, true, ℕ, ◌%◌, ◌++◌, ◌==◌, ◌^◌, ◌||◌,
  ◌∷◌,
}
use vanguard_go.Prelude.Map.{Map, put}

-- httpStatusCodeFromRPCIndex
abbrev pub http_status_codes : List ℕ
http_status_codes =
    200
    ∷ (499
        ∷ (500
            ∷ (400
                ∷ (504
                    ∷ (404
                        ∷ (409
                            ∷ (403
                                ∷ (429
                                    ∷ (400
                                        ∷ (409
                                            ∷ (400
                                                ∷ (501
                                                    ∷ (500 ∷ (503 ∷ (500 ∷ (401 ∷ []))))))))))))))))

-- list[i], none out of range
abbrev pub get_elem? : List ℕ → ℕ → Option ℕ
get_elem? [] i = none
get_elem? (x ∷ xs) zero = some x
get_elem? (x ∷ xs) (suc i) = get_elem? xs i

unfoldable pub http_status_code_from_rpc : ℕ → ℕ
http_status_code_from_rpc code = elim (get_elem? http_status_codes code) [
  | none ↦ 500
  | some status ↦ status
]

unfoldable pub http_status_code_to_rpc : ℕ → ℕ
http_status_code_to_rpc code =
    if code == 200
    then 0
    else if code == 400
    then 13
    else if code == 401
    then 16
    else if code == 403
    then 7
    else if code == 404
    then 12
    else if code == 429 || code == 502 || code == 503 || code == 504
    then 14
    else 2

-- connect.ErrorDetail
pub record Detail : Type 0 where
  pub type_name : Bytes
  pub value : Bytes

-- anypb.Any
pub record Any : Type 0 where
  pub type_url : Bytes
  pub value : Bytes

-- google.rpc.Status
pub record RpcStatus : Type 0 where
  pub code : ℕ
  pub message : Bytes
  pub details : List Any

-- connect.Error, with its cause
pub record ConnectError (E : Type 0) : Type 0 where
  pub code : ℕ
  pub message : Bytes
  pub details : List Detail
  pub is_remote : Bool
  pub cause : Option E

unfoldable pub new_error : {E : Type 0} → ℕ → Bytes → ConnectError E
new_error code message = record {
  code = code;
  message = message;
  details = [];
  is_remote = false;
  cause = none;
}

-- `as_type` is errors.AsType for *connect.Error; `deadline` and `canceled` are errors.Is for the
-- two errors of a context; `text` is Error().
pub record ErrorChain (E : Type 0) : Type 0 where
  pub as_type : E → Option (ConnectError E)
  pub deadline : E → Bool
  pub canceled : E → Bool
  pub text : E → Bytes

module _ {E : Type 0} (chain : ErrorChain E) where
  open chain use {as_type, deadline, canceled, text}

  unfoldable pub context_error : E → ConnectError E
  unfolding new_error
  context_error e =
      if deadline e
      then record (new_error 4 (text e)) { cause = some e }
      else record (new_error 1 (text e)) { cause = some e }

  unfoldable pub as_connect_error : E → ConnectError E
  unfolding new_error context_error
  as_connect_error e = elim (as_type e) [
    | some connect_err ↦
        if connect_err.is_remote then record (new_error 13 []) { cause = some e } else connect_err
    | none ↦
        if canceled e || deadline e
        then context_error e
        else record (new_error 2 []) { cause = some e }
  ]

  unfoldable pub wrap_error : ℕ → Bytes → E → ConnectError E
  unfolding new_error
  wrap_error code prefix e = elim (as_type e) [
    | some connect_err ↦ connect_err
    | none ↦ record (new_error code (prefix ++ (codes ": " ++ text e))) { cause = some e }
  ]

  -- `forwardError`, of forward.go: an error without a code stays as it is.
  unfoldable pub forward_error : E → E ⊎ ConnectError E
  unfolding new_error
  forward_error e = elim (as_type e) [
    | none ↦ inl e
    | some connect_err ↦
        inr (record (new_error connect_err.code connect_err.message) {
          details = connect_err.details;
        })
  ]

unfoldable pub any_of_detail : Detail → Any
any_of_detail d = record { type_url = codes "type.googleapis.com/" ++ d.type_name; value = d.value }

unfoldable pub grpc_status_from_error : {E : Type 0} → ConnectError E → RpcStatus
unfolding any_of_detail
grpc_status_from_error e = record {
  code = e.code % 2 ^ 32;
  message = e.message;
  details = map any_of_detail e.details;
}

-- The text behind the last '/', all of it if there is none.
unfoldable pub type_name_from_url : Bytes → Bytes
type_name_from_url url = elim (cut_last b'/' url) [ none ↦ url | some (before, name) ↦ name ]

unfoldable pub detail_of_any : Any → Detail
unfolding type_name_from_url
detail_of_any a = record { type_name = type_name_from_url a.type_url; value = a.value }

-- What an http.ResponseWriter is given.
pub record Reply : Type 0 where
  pub header : Map (List Bytes)
  pub status_code : ℕ
  pub body : Bytes

-- The codec: its name, what `MarshalWrite` writes of a status, and what `UnmarshalRead` leaves in
-- an empty status, true if it returns no error.
pub record StatusCodec : Type 0 where
  pub codec_name : Bytes
  pub marshal_write : RpcStatus → Bytes
  pub unmarshal_read : Bytes → RpcStatus × Bool

unfoldable pub http_write_status :
    {E : Type 0} → StatusCodec → Map (List Bytes) → ℕ → ConnectError E → Reply
unfolding grpc_status_from_error
http_write_status codec header status_code e = record {
  header =
      put (codes "Content-Encoding") (codes "identity" ∷ [])
        (put (codes "Content-Type") ((codes "application/" ++ codec.codec_name) ∷ []) header);
  status_code = status_code;
  body = codec.marshal_write (grpc_status_from_error e);
}

unfoldable pub http_write_error :
    {E : Type 0} → ErrorChain E → StatusCodec → Map (List Bytes) → E → Reply
unfolding as_connect_error http_write_status http_status_code_from_rpc
http_write_error chain codec header e =
    let cerr = as_connect_error chain e in
    http_write_status codec header (http_status_code_from_rpc cerr.code) cerr

module _ (new_any : Bytes → Bytes → Result Bytes Any) (status_text : ℕ → Bytes) where
  -- The status that stands for a body that is none: `stat` is what decoding has left.
  unfoldable pub status_of_body : ℕ → Bytes → Bytes → RpcStatus → Result Bytes RpcStatus
  unfolding http_status_code_to_rpc
  status_of_body status_code content_type src stat = elim (new_any content_type src) [
    | err text ↦ err text
    | ok body ↦ ok (record {
      code = http_status_code_to_rpc status_code % 2 ^ 32;
      message = status_text status_code;
      details = stat.details ++ (body ∷ []);
    })
  ]

  unfoldable pub remote_error : {E : Type 0} → RpcStatus → ConnectError E
  unfolding detail_of_any
  remote_error stat = record {
    code = stat.code % 2 ^ 32;
    message = stat.message;
    details = map detail_of_any stat.details;
    is_remote = true;
    cause = none;
  }

  -- none for nil
  unfoldable pub http_error_from_response :
      {E : Type 0} → StatusCodec → ℕ → Bytes → Bytes → Option (ConnectError E)
  unfolding status_of_body remote_error new_error
  http_error_from_response codec status_code content_type src =
      let (stat, decoded) = codec.unmarshal_read src in
      if status_code == 200
      then none
      else if decoded
      then some (remote_error stat)
      else elim (status_of_body status_code content_type src stat) [
        | err text ↦ some (new_error 13 text)
        | ok whole ↦ some (remote_error whole)
      ]
