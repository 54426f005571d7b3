-- ===== src/Client.antt =====
-- stream_client.go: the state of clientStream. The HTTP client, the compressors, the codec, the
-- context and the messages of protobuf are parameters; `Connection` has what they give in one call.
-- A message of another type than proto.Message cannot be given here.
pub mod Http
pub mod Stream
pub mod Calls
pub mod Paths
pub mod Requests
pub mod Sound
pub mod Sides
pub mod Answering
pub mod Kept
pub mod Receiving
pub mod Runs
pub mod Ruleless
pub mod Sample
mod Tests
use vanguard_go.Compression.{Compressors, get_compressor}
use vanguard_go.Prelude.{
  Bool, Bytes, List, Option, Result, [], bytes_eq, codes, ends_with, err, false, has_prefix,
  if◌then◌else◌, is_empty, ltb, none, not, ok, some, true, ℕ, ◌&&◌, ◌++◌, ◌==◌, ◌||◌, ◌>>=◌, ◌∷◌,
  ◌/◌,
}
use vanguard_go.Prelude.Map.{Map, get, put}
use vanguard_go.Server.{Header, first_value, set_metadata_headers}
use vanguard_go.Status.{
  Any, ConnectError, ErrorChain, StatusCodec, context_error, new_error, wrap_error,
}

-- The error of a call: io.EOF, an error without a code, one with a code, or a panic of the source,
-- which dereferences a nil pointer.
pub data ClientError (E : Type 0) : Type 0 where
  eof : ClientError E
  plain : Bytes → ClientError E
  coded : ConnectError E → ClientError E
  nil_dereference : ClientError E

-- url.URL
pub record Url : Type 0 where
  pub raw_path : Bytes
  pub path : Bytes
  pub raw_query : Bytes

-- routeTarget: its method, and requestBodyFields, of which only nil matters.
pub record Rule : Type 0 where
  pub http_method : Bytes
  pub has_request_fields : Bool

pub data RequestBody : Type 0 where
  no_body piped : RequestBody
  whole : Bytes → RequestBody

pub record Request : Type 0 where
  pub http_method : Bytes
  pub url : Url
  pub header : Header
  pub body : RequestBody

-- http.Response: the raw body is a number. `decoder` is the compressor that its Body undoes, and
-- `limit` what a MaxBytesReader lets through, 0 without one.
pub record Response (C : Type 0) : Type 0 where
  pub status_code : ℕ
  pub header : Header
  pub body : ℕ
  pub decoder : Option C
  pub limit : ℕ

-- What does not change during a call: the method, the transport, the context and the libraries.
-- `encode_path_values` is httpEncodePathValues with the query as `Encode` writes it; `encode_body`
-- and `compress` are the bytes that they write. `base_path` is baseURL.EscapedPath(). `metadata`
-- are the headers of the call's info, none without an info; `timeout` is the text of a deadline
-- that is ahead. `is_eof` is errors.Is(err, io.EOF), and `build_error` the error of
-- http.NewRequestWithContext.
pub record Calling (M C E : Type 0) : Type 0 where
  pub client_streams : Bool
  pub server_streams : Bool
  pub rule : Option Rule
  pub base_url : Url
  pub base_path : Bytes
  pub encode_path_values : M → Result E (Bytes × Bytes)
  pub path_unescape : Bytes → Result E Bytes
  pub body_content_type : M → Bytes
  pub encode_body : M → Bytes
  pub codec_name : Bytes
  pub send_compressor : Option C
  pub name_of : C → Bytes
  pub compress : C → Bytes → Bytes
  pub compressors : Compressors C
  pub identity : Bytes
  pub max_read_bytes : ℕ
  pub metadata : Option Header
  pub timeout : Option Bytes
  pub build_error : Option E
  pub chain : ErrorChain E
  pub is_eof : E → Bool
  pub is_closed_pipe : E → Bool
  pub is_too_large : E → Bool
  pub limit_text : Bytes
  pub unknown_encoding : Bytes → Bytes
  pub no_rule : Bytes
  pub canceled : E
  pub status_codec : StatusCodec
  pub new_any : Bytes → Bytes → Result Bytes Any
  pub status_text : ℕ → Bytes

-- What the libraries give in a call, none for no error.
pub record Connection (E : Type 0) : Type 0 where
  pub compress_error : Option E
  pub encode_error : Option E
  pub close_error : Option E
  pub decompress_error : Option E

-- The fields of the stream. `request_body` are the bytes that the writer has taken, `pipe` says
-- that there is a pipe, `compressing` that there is a compressWriter. `ready_closes` counts the
-- calls of close(s.ready). `in_flight` is the request that httpClient.Do works on, `context` the
-- error of a context that is done. `opened` and `body_closes` are the raw bodies that Do has
-- returned, and those that were closed. `response_encoding` and `response_header` are what the
-- call's info is told.
pub record ClientStream (C E : Type 0) : Type 0 where
  pub send_closed : Bool
  pub req_url : Option Url
  pub content_type : Bytes
  pub request_body : Bytes
  pub pipe : Bool
  pub compressing : Bool
  pub received : Bool
  pub ready_closes : ℕ
  pub responded : Bool
  pub closed : Bool
  pub response : Option (Response C)
  pub raw_body : Option ℕ
  pub dispatch : Option (ClientError E)
  pub in_flight : Option Request
  pub context : Option E
  pub opened : List ℕ
  pub body_closes : List ℕ
  pub response_encoding : Bytes
  pub response_header : Header

-- `newClientStream`
abbrev pub new_client_stream : {C E : Type 0} → ClientStream C E
new_client_stream = record {
  send_closed = false;
  req_url = none;
  content_type = [];
  request_body = [];
  pipe = false;
  compressing = false;
  received = false;
  ready_closes = 0;
  responded = false;
  closed = false;
  response = none;
  raw_body = none;
  dispatch = none;
  in_flight = none;
  context = none;
  opened = [];
  body_closes = [];
  response_encoding = [];
  response_header = [];
}
