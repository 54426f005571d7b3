-- ===== src/Serve/Tests.antt =====
-- A handler for the sample method, and what it does with requests.
use vanguard_go.Compression.{new_compressors}
use vanguard_go.Fields.Sample.{library}
use vanguard_go.Prelude.{
  Bool, Bytes, List, Option, [], codes, false, none, ok, refl, some, true, ℕ, ◌∷◌, ◌≡◌,
}
use vanguard_go.Route.Target.Sample.{title_routes}
use vanguard_go.Serve.{
  Floats, Request, RestHandler, rest_decode_timeout, route_request, sorted_keys,
}
use vanguard_go.Serve.Guards.{Routed, route_request-Routed}
use vanguard_go.Server.{Io, Serving}
use vanguard_go.Status.{ConnectError, Detail, ErrorChain, StatusCodec}

-- Seconds without a sign; the blank text is none.
abbrev whole_seconds : Floats
whole_seconds = record {
  Float = ℕ;
  parse_float = λ s. elim s [ [] ↦ (0, true) | c ∷ cs ↦ (c, false) ];
  is_nan = λ x. false;
  is_negative = λ x. false;
  is_too_long = λ x. false;
  to_duration = λ x. x;
}

-- An error with a code, alone or over its cause.
data Failure : Type 0 where
  alone : ℕ → Bytes → List Detail → Bool → Failure
  over : ℕ → Bytes → List Detail → Bool → Failure → Failure

abbrev as_type : Failure → Option (ConnectError Failure)
as_type (alone code message details is_remote) = some (record {
  code = code;
  message = message;
  details = details;
  is_remote = is_remote;
  cause = none;
})
as_type (over code message details is_remote cause) = some (record {
  code = code;
  message = message;
  details = details;
  is_remote = is_remote;
  cause = some cause;
})

abbrev failure_of : ℕ → Bytes → List Detail → Bool → Option Failure → Failure
failure_of code message details is_remote none = alone code message details is_remote
failure_of code message details is_remote (some cause) = over code message details is_remote cause

abbrev inject : ConnectError Failure → Failure
inject c = failure_of c.code c.message c.details c.is_remote c.cause

found_as_made :
    (code : ℕ) (message : Bytes) (details : List Detail) (is_remote : Bool) (cause : Option Failure)
    → as_type (failure_of code message details is_remote cause)
      ≡ some (record {
        code = code;
        message = message;
        details = details;
        is_remote = is_remote;
        cause = cause;
      })
found_as_made code message details is_remote none = refl
found_as_made code message details is_remote (some cause) = refl

abbrev failures : ErrorChain Failure
failures = record {
  as_type = as_type;
  deadline = λ e. false;
  canceled = λ e. false;
  text = λ e. [];
}

abbrev codec : StatusCodec
codec = record {
  codec_name = codes "json";
  marshal_write = λ s. s.message;
  unmarshal_read = λ body. (record { code = 0; message = body; details = [] }, true);
}

abbrev shelf : RestHandler library Bytes Failure
shelf = record {
  routes = title_routes;
  compressors = new_compressors (codes "identity") (λ c. c) (codes "gzip" ∷ []);
  identity = codes "identity";
  name_of = λ c. c;
  codec = codec;
  chain = failures;
  inject = inject;
  floats = whole_seconds;
  unsupported_text = λ reason. [];
  negotiate_text = λ e. [];
  timeout_text = λ e. [];
}

abbrev find_dune : Request
find_dune = record {
  escaped_path = codes "/v1/dune";
  path = codes "/v1/dune";
  method = codes "GET";
  header = (codes "Accept-Encoding", codes "gzip" ∷ []) ∷ [];
}

sorted :
    sorted_keys {V = ℕ} ((codes "PUT", 1) ∷ ((codes "GET", 2) ∷ []))
    ≡ codes "GET" ∷ (codes "PUT" ∷ [])
sorted = refl

two_seconds : rest_decode_timeout whole_seconds (codes "2") ≡ ok b'2'
unfolding rest_decode_timeout
two_seconds = refl

route_request-Routed_example :
    Routed library shelf
      (λ c. found_as_made c.code c.message c.details c.is_remote c.cause)
      find_dune
      (route_request library shelf find_dune [])
route_request-Routed_example =
    route_request-Routed library shelf
      (λ c. found_as_made c.code c.message c.details c.is_remote c.cause) find_dune []

abbrev text_serving : Serving Bytes ℕ
text_serving = record {
  streaming = false;
  response_compressor = none;
  default_content_type = codes "text/plain";
  body_content_type = λ msg. codes "text/plain";
  encode_body = λ msg. (msg, none);
}

abbrev no_failure : Io ℕ
no_failure = record {
  compress_error = none;
  flush_compressor_error = none;
  flush_error = none;
  close_error = none;
}
