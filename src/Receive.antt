-- ===== src/Receive.antt =====
-- stream_handler.go, the receiving side of serverStream: `Receive`, `openBody`, `hasBody`,
-- `decodeURL` and `decodeError`. Decoding a body and a URL into a message, which `Bodies` and
-- `Receive.Url` do, is a parameter, and so is what the connection gives in a call; a message that a
-- failed call has left half decoded is not kept, since no caller reads it.
pub mod Once
pub mod Url
pub mod Sent
mod Tests
use vanguard_go.Prelude.{
  Bool, Bytes, Option, Result, codes, err, false, if◌then◌else◌, ltb, none, not, ok, some, true, ℕ,
  ◌&&◌, ◌++◌, ◌>>=◌,
}
use vanguard_go.Status.{ConnectError, ErrorChain, new_error, wrap_error}

-- The request as a call of `Receive` finds it: its ContentLength, none below 0, the bytes that the
-- probe of an unknown length reads, the error of the decompressor, and what `readChunk` returns for
-- the body.
pub data Chunk (E : Type 0) : Type 0 where
  chunk : Bytes → Chunk E
  last_chunk : Chunk E
  broken : E → Chunk E

pub record Arrival (E : Type 0) : Type 0 where
  pub content_length : Option ℕ
  pub probed : ℕ
  pub decompress_error : Option E
  pub next_chunk : Chunk E

-- What does not change during a call of the method; `max_read_bytes` only caps the body, whose
-- reads then fail with an error that `is_too_large` knows.
pub record Decoding (M E : Type 0) : Type 0 where
  pub client_streams : Bool
  pub has_body_fields : Bool
  pub has_compressor : Bool
  pub is_too_large : E → Bool
  pub limit_text : Bytes
  pub chain : ErrorChain E
  pub decode_body : M → Result E M
  pub decode_request_url : M → Result E M
  pub set_body : Bytes → M → Result E M

-- The error of a call: io.EOF, or an error with a code.
pub data ReceiveError (E : Type 0) : Type 0 where
  eof : ReceiveError E
  coded : ConnectError E → ReceiveError E

-- `body` is opened, and the receiving side is `done`.
pub record Receiver : Type 0 where
  pub is_open : Bool
  pub done : Bool

unfoldable pub has_body : {E : Type 0} → Arrival E → Bool
has_body arrival = elim arrival.content_length [
  | some length ↦ ltb 0 length
  | none ↦ ltb 0 arrival.probed
]

module _ {M E : Type 0} (d : Decoding M E) where
  unfoldable pub decode_error : E → ReceiveError E
  unfolding wrap_error new_error
  decode_error e =
      if d.is_too_large e
      then coded (new_error 8 d.limit_text)
      else coded (wrap_error d.chain 3 (codes "decode request") e)

  -- none for nil
  unfoldable pub open_body : Arrival E → Option (ReceiveError E)
  unfolding has_body new_error
  open_body arrival =
      if not d.has_body_fields
      then (if has_body arrival
          then some (coded (new_error 3 (codes "request should have no body")))
          else none)
      else if d.has_compressor
      then elim arrival.decompress_error [
        | none ↦ none
        | some e ↦ some (
            coded (record (new_error 3 (codes "decompress request: " ++ d.chain.text e)) {
              cause = some e;
            }))
      ]
      else none

  unfoldable pub or_decode_error : Result E M → Result (ReceiveError E) M
  unfolding decode_error
  or_decode_error (ok msg) = ok msg
  or_decode_error (err e) = err (decode_error e)

  unfoldable pub decode_url : M → Result (ReceiveError E) M
  unfolding or_decode_error
  decode_url msg = or_decode_error (d.decode_request_url msg)

  -- The single message of a client that does not stream.
  unfoldable pub receive_only : M → Result (ReceiveError E) M
  unfolding or_decode_error decode_url
  receive_only msg = do
    filled ← or_decode_error (if d.has_body_fields then d.decode_body msg else ok msg)
    decode_url filled

  -- A chunk as a message, with the fields of the URL on the first.
  unfoldable pub fill_chunk : Bool → Bytes → M → Result (ReceiveError E) M
  unfolding or_decode_error decode_url
  fill_chunk first data_bytes msg = do
    filled ← or_decode_error (d.set_body data_bytes msg)
    if first then decode_url filled else ok filled

  unfoldable pub receive_chunk :
      Bool → Chunk E → M → Receiver → Receiver × Result (ReceiveError E) M
  unfolding decode_error fill_chunk
  receive_chunk first (chunk data_bytes) msg s = (s, fill_chunk first data_bytes msg)
  receive_chunk true last_chunk msg s = (record s { done = true }, fill_chunk true (codes "") msg)
  receive_chunk false last_chunk msg s = (record s { done = true }, err eof)
  receive_chunk first (broken e) msg s = (s, err (decode_error e))

  -- `Receive` behind the opened body.
  unfoldable pub receive_open :
      Bool → Arrival E → M → Receiver → Receiver × Result (ReceiveError E) M
  unfolding receive_only receive_chunk
  receive_open first arrival msg s =
      if not d.client_streams
      then (record s { done = true }, receive_only msg)
      else receive_chunk first arrival.next_chunk msg s

  unfoldable pub receive : Arrival E → M → Receiver → Receiver × Result (ReceiveError E) M
  unfolding open_body receive_open
  receive arrival msg s =
      if s.done
      then (s, err eof)
      else if s.is_open
      then receive_open false arrival msg s
      else elim (open_body arrival) [
        | some e ↦ (s, err e)
        | none ↦ receive_open true arrival msg (record s { is_open = true })
      ]
