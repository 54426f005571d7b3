-- ===== src/Server.antt =====
-- stream_handler.go: the headers and the sending side of the stream that serves a request,
-- serverStream with `SendHeaders`, `Send`, `flushHeaders` and `close`. The response is recorded:
-- the headers so far, the head that was written, and the bytes. Messages, the compressor, the
-- codec's bytes and the failures of writers are parameters: `Io` has the failures of one call.
-- A message of another type than proto.Message cannot be given here.
pub mod Headers
pub mod Sound
pub mod Sending
pub mod Once
pub mod Unary
mod Tests
use vanguard_go.Prelude.{
  Bool, Bytes, List, Option, [], bytes_eq, codes, false, if◌then◌else◌, is_empty, none, not, some,
  true, ℕ, ◌++◌, ◌&&◌, ◌||◌, ◌∷◌,
}
use vanguard_go.Prelude.Map.{Map, get, put}

-- The values of the headers.
abbrev pub Header : Type 0
Header = Map (List Bytes)

-- protocolHeaders
abbrev pub protocol_headers : List Bytes
protocol_headers =
    codes "Content-Type"
    ∷ (codes "Content-Length"
        ∷ (codes "Content-Encoding"
            ∷ (codes "Trailer"
                ∷ (codes "Date"
                    ∷ (codes "Accept-Encoding"
                        ∷ (codes "Connect-Content-Encoding"
                            ∷ (codes "Connect-Accept-Encoding"
                                ∷ (codes "Connect-Timeout-Ms"
                                    ∷ (codes "Connect-Protocol-Version"
                                        ∷ (codes "Grpc-Encoding"
                                            ∷ (codes "Grpc-Accept-Encoding"
                                                ∷ (codes "Grpc-Timeout"
                                                    ∷ (codes "Grpc-Status"
                                                        ∷ (codes "Grpc-Message"
                                                            ∷ (codes "Grpc-Status-Details-Bin"
                                                            ∷ [])))))))))))))))

-- hopByHopHeaders, of forward.go
abbrev pub hop_by_hop_headers : List Bytes
hop_by_hop_headers =
    codes "Connection"
    ∷ (codes "Content-Length"
        ∷ (codes "Host"
            ∷ (codes "Keep-Alive"
                ∷ (codes "Proxy-Authenticate"
                    ∷ (codes "Proxy-Authorization"
                        ∷ (codes "Te"
                            ∷ (codes "Trailer"
                                ∷ (codes "Transfer-Encoding" ∷ (codes "Upgrade" ∷ [])))))))))

abbrev pub is_among : Bytes → List Bytes → Bool
is_among key [] = false
is_among key (k ∷ keys) = bytes_eq k key || is_among key keys

-- The loop that both copies of headers are: all keys but those of a list, in the source's order.
unfoldable pub copy_except : List Bytes → Header → Header → Header
copy_except skipped [] dst = dst
copy_except skipped ((key, vals) ∷ src) dst =
    let kept = copy_except skipped src (put key vals dst) in
    let rest = copy_except skipped src dst in if is_among key skipped then rest else kept

-- setMetadataHeaders
unfoldable pub set_metadata_headers : Header → Header → Header
set_metadata_headers dst src = copy_except protocol_headers src dst

-- copyHeader, of forward.go
unfoldable pub copy_header : Header → Header → Header
copy_header dst src = copy_except hop_by_hop_headers src dst

-- Header.Get: the first value, or ""
unfoldable pub first_value : Bytes → Header → Bytes
first_value key header = elim (get key header) [
  | none ↦ []
  | some vals ↦ elim vals [ [] ↦ [] | v ∷ vs ↦ v ]
]

-- The stream, with the response: `header` is Go's map, which counts until the head is written.
-- `packed` is what the compressor was given, `packing` that there is a compressWriter.
pub record ServerStream : Type 0 where
  pub header : Header
  pub head : Option (ℕ × Header)
  pub plain : Bytes
  pub packed : Bytes
  pub packing : Bool
  pub packing_closed : Bool
  pub sent : Bool
  pub headers_set : Bool

pub data SendError (E : Type 0) : Type 0 where
  sent_twice : SendError E
  get_compressor_failed : E → SendError E
  encode_failed : E → SendError E
  flush_compressor_failed : E → SendError E
  failed : E → SendError E

-- The failures of the writers in a call, none for nil. A compressor without a Flush, and a response
-- that cannot flush, have none.
pub record Io (E : Type 0) : Type 0 where
  pub compress_error : Option E
  pub flush_compressor_error : Option E
  pub flush_error : Option E
  pub close_error : Option E

-- What does not change during a call: whether the method streams its responses, the name of the
-- compressor of the response, none for nil, the default content type of `flushHeaders`, and for a
-- message its content type and what encoding it writes, with the failure that stopped it.
pub record Serving (M E : Type 0) : Type 0 where
  pub streaming : Bool
  pub response_compressor : Option Bytes
  pub default_content_type : Bytes
  pub body_content_type : M → Bytes
  pub encode_body : M → Bytes × Option E

module _ {M E : Type 0} (serving : Serving M E) where
  abbrev pub Step : Type 0
  Step = ServerStream × Option (SendError E)

  -- The headers that `flushHeaders` sets, before those of a compressor.
  unfoldable pub with_content_type : Header → Header
  unfolding first_value
  with_content_type header =
      if is_empty (first_value (codes "Content-Type") header)
      then put (codes "Content-Type") (serving.default_content_type ∷ []) header
      else header

  -- WriteHeader(http.StatusOK): the head is what the headers are now.
  unfoldable pub write_head : Header → Bool → ServerStream → ServerStream
  write_head header packing s = record s {
    header = header;
    head = some (200, header);
    packing = packing;
    headers_set = true;
  }

  -- `flushHeaders`, with the compressor when it is to compress
  unfoldable pub flush_headers : Option Bytes → Header → Io E → ServerStream → Step
  unfolding with_content_type write_head set_metadata_headers
  flush_headers compressor metadata io s =
      let header = with_content_type (set_metadata_headers s.header metadata) in
      if s.headers_set then (s, none) else elim compressor [
        | none ↦ (write_head header s.packing s, none)
        | some name ↦ elim io.compress_error [
          | some e ↦ (record s { header = header }, some (get_compressor_failed e))
          | none ↦ (write_head (put (codes "Content-Encoding") (name ∷ []) header) true s, none)
        ]
      ]

  unfoldable pub send_headers : Header → Io E → ServerStream → Step
  unfolding flush_headers
  send_headers metadata io s = flush_headers serving.response_compressor metadata io s

  -- The headers of a first message.
  unfoldable pub set_content_type : M → ServerStream → ServerStream
  set_content_type msg s =
      let content_type = serving.body_content_type msg in
      let given =
        if is_empty content_type then codes "application/octet-stream" else content_type in
      if s.headers_set
      then s
      else record s { header = put (codes "Content-Type") (given ∷ []) s.header }

  -- Bytes go to the compressor if there is one.
  unfoldable pub write : Bytes → ServerStream → ServerStream
  write bytes s =
      if s.packing
      then record s { packed = s.packed ++ bytes }
      else record s { plain = s.plain ++ bytes }

  -- The flushes behind a message of a streaming method.
  unfoldable pub flush_error_of : Io E → ServerStream → Option (SendError E)
  flush_error_of io s =
      if not serving.streaming
      then none
      else elim (if s.packing then io.flush_compressor_error else none) [
        | some e ↦ some (flush_compressor_failed e)
        | none ↦ elim io.flush_error [ some e ↦ some (failed e) | none ↦ none ]
      ]

  -- `Send`, from the flushed headers on
  unfoldable pub send_body : M → Io E → Step → Step
  unfolding write flush_error_of
  send_body msg io (s, some e) = (s, some e)
  send_body msg io (s, none) =
      let (bytes, failure) = serving.encode_body msg in
      let s' = write bytes s in
      elim failure [ some e ↦ (s', some (encode_failed e)) | none ↦ (s', flush_error_of io s') ]

  unfoldable pub send : M → Header → Io E → ServerStream → Step
  unfolding set_content_type flush_headers send_body
  send msg metadata io s =
      if s.sent && not serving.streaming
      then (s, some sent_twice)
      else send_body msg io (
          flush_headers serving.response_compressor metadata io
            (set_content_type msg (record s { sent = true })))

  unfoldable pub close_step : Io E → Step → Step
  close_step io (s, some e) = (s, some e)
  close_step io (s, none) =
      if s.packing
      then (
        record s { packing_closed = true },
        elim io.close_error [ some e ↦ some (failed e) | none ↦ none ],
      )
      else (s, none)

  unfoldable pub close_stream : Header → Io E → ServerStream → Step
  unfolding flush_headers close_step
  close_stream metadata io s = close_step io (flush_headers none metadata io s)
