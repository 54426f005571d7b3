-- ===== src/Serve.antt =====
-- vanguard.go, `ServeHTTP` of restHandler, with `restDecodeTimeout` of encoding.go. The stream
-- between the two halves is `Server`'s, and the call of the handler, which sends on it, belongs to
-- connect. Floats are an interface, and so are the texts of errors; `inject` is an error with a
-- code as a Go error.
pub mod Guards
pub mod Finish
mod Tests
use vanguard_go.Compression.{Compressors, NegotiateError, negotiate}
use vanguard_go.Fields.Descriptors.{Reflection}
use vanguard_go.Prelude.{
  Bool, Bytes, List, Option, Result, [], bytes_lt, codes, err, false, if◌then◌else◌, is_empty, join,
  ltb, map, none, not, ok, some, true, ℕ, ◌&&◌, ◌++◌, ◌==◌, ◌||◌, ◌∷◌,
}
use vanguard_go.Prelude.Map.{Map, put}
use vanguard_go.Route.Target.{RouteTarget, Unsupported}
use vanguard_go.Route.Trie.{Trie, match}
use vanguard_go.Server.{
  Header, Io, ServerStream, Serving, close_stream, first_value, set_metadata_headers,
}
use vanguard_go.Status.{
  ConnectError, ErrorChain, Reply, StatusCodec, http_write_error, http_write_status, new_error,
}

-- strconv.ParseFloat, true for an error other than a range error, and the tests of the float.
pub record Floats : Type 1 where
  pub Float : Type 0
  pub parse_float : Bytes → Float × Bool
  pub is_nan : Float → Bool
  pub is_negative : Float → Bool
  pub is_too_long : Float → Bool
  pub to_duration : Float → ℕ

pub data TimeoutError : Type 0 where
  bad_syntax : Bytes → TimeoutError
  not_a_timeout : Bytes → TimeoutError

abbrev pub max_int64 : ℕ
max_int64 = 9223372036854775807

unfoldable pub rest_decode_timeout : (floats : Floats) → Bytes → Result TimeoutError ℕ
rest_decode_timeout floats timeout =
    let (val, failed) = floats.parse_float timeout in
    if is_empty timeout
    then ok 0
    else if failed
    then err (bad_syntax timeout)
    else if floats.is_nan val || floats.is_negative val
    then err (not_a_timeout timeout)
    else if floats.is_too_long val
    then ok max_int64
    else ok (floats.to_duration val)

abbrev pub insert_sorted : Bytes → List Bytes → List Bytes
insert_sorted key [] = key ∷ []
insert_sorted key (k ∷ keys) =
    if bytes_lt k key then k ∷ insert_sorted key keys else key ∷ (k ∷ keys)

-- slices.Sorted(maps.Keys(m))
abbrev pub sorted_keys {ℓ} : {V : Type ℓ} → Map V → List Bytes
sorted_keys [] = []
sorted_keys ((key, v) ∷ m) = insert_sorted key (sorted_keys m)

pub record Request : Type 0 where
  pub escaped_path : Bytes
  pub path : Bytes
  pub method : Bytes
  pub header : Header

-- What a handler is configured with, and the parameters of the model.
pub record RestHandler (r : Reflection) (C E : Type 0) : Type 1 where
  pub routes : Trie (RouteTarget r)
  pub compressors : Compressors C
  pub identity : Bytes
  pub name_of : C → Bytes
  pub codec : StatusCodec
  pub chain : ErrorChain E
  pub inject : ConnectError E → E
  pub floats : Floats
  pub unsupported_text : Unsupported → Bytes
  pub negotiate_text : NegotiateError → Bytes
  pub timeout_text : TimeoutError → Bytes

-- What the handler of the method is called with.
pub record Ready (r : Reflection) (C : Type 0) : Type 0 where
  pub target : RouteTarget r
  pub request_compressor : Option C
  pub response_compressor : Option C
  pub timeout : Option ℕ

module _ (r : Reflection) {C E : Type 0} (h : RestHandler r C E) where
  -- httpWriteError of an error with a code and a message.
  unfoldable pub refuse : Header → ℕ → Bytes → Reply
  unfolding http_write_error new_error
  refuse header code message =
      http_write_error h.chain h.codec header (h.inject (new_error code message))

  -- The replies when no target is found.
  unfoldable pub refuse_unrouted : Request → Option (Map (RouteTarget r)) → Header → Reply
  unfolding refuse http_write_status new_error
  refuse_unrouted request none header = refuse header 5 (codes "no REST route for " ++ request.path)
  refuse_unrouted request (some []) header =
      refuse header 5 (codes "no REST route for " ++ request.path)
  refuse_unrouted request (some (m ∷ ms)) header =
      http_write_status {E = E} h.codec
        (put (codes "Allow") (join (sorted_keys (m ∷ ms)) (codes ", ") ∷ []) header) 405
        (new_error 12 (codes "HTTP method " ++ (request.method ++ codes " not allowed")))

  -- none if the request has no timeout
  unfoldable pub timeout_of : Request → Header → Result Reply (Option ℕ)
  unfolding first_value rest_decode_timeout refuse
  timeout_of request header =
      let timeout = first_value (codes "X-Server-Timeout") request.header in
      if is_empty timeout then ok none else elim (rest_decode_timeout h.floats timeout) [
        | err e ↦ err (refuse header 3 (h.timeout_text e))
        | ok duration ↦ ok (some duration)
      ]

  -- From the target on.
  unfoldable pub admit : Request → Header → RouteTarget r → Result Reply (Ready r C)
  unfolding first_value refuse timeout_of http_write_status new_error
  admit request header target = elim target.unsupported [
    | some reason ↦
        err
          (http_write_status {E = E} h.codec header 415 (new_error 12 (h.unsupported_text reason)))
    | none ↦
        elim (negotiate h.identity h.name_of (first_value (codes "Content-Encoding") request.header)
          (first_value (codes "Accept-Encoding") request.header) h.compressors) [
            | err e ↦ err (
                refuse (put (codes "Accept-Encoding") (h.compressors.names ∷ []) header) 12
                  (h.negotiate_text e))
            | ok (request_compressor, response_compressor) ↦ elim (timeout_of request header) [
              | err reply ↦ err reply
              | ok timeout ↦ ok (record {
                target = target;
                request_compressor = request_compressor;
                response_compressor = response_compressor;
                timeout = timeout;
              })
            ]
          ]
  ]

  -- `ServeHTTP` up to the call of the handler; `header` is the response's.
  unfoldable pub route_request : Request → Header → Result Reply (Ready r C)
  unfolding match refuse_unrouted admit
  route_request request header =
      let (found, allowed) = match request.escaped_path request.method h.routes in
      elim found [
        | none ↦ err (refuse_unrouted request allowed header)
        | some target ↦ admit request header target
      ]

  -- How the exchange ends.
  pub data Ending : Type 0 where
    finished : ServerStream → Ending
    aborted : ServerStream → Ending
    replied : Reply → Ending

  -- The error of the call, or that of a handler that has sent nothing.
  unfoldable pub call_error : Bool → Option E → ServerStream → Option E
  unfolding new_error
  call_error streaming (some e) s = some e
  call_error streaming none s =
      if not s.sent && not streaming
      then some (h.inject (new_error 13 (codes "handler sent no response message")))
      else none

  -- `ServeHTTP` from the end of the call on, with its error and the stream that it leaves.
  unfoldable pub end_request :
      {M F : Type 0} → Serving M F → Option E → Header → Io F → ServerStream → Ending
  unfolding call_error close_stream set_metadata_headers http_write_error
  end_request serving result metadata io s = elim (call_error serving.streaming result s) [
    | none ↦ finished (close_stream serving metadata io s).0
    | some e ↦
        if s.headers_set
        then aborted s
        else replied (http_write_error h.chain h.codec (set_metadata_headers s.header metadata) e)
  ]
