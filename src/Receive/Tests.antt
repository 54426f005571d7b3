-- ===== src/Receive/Tests.antt =====
-- Receiving messages that are lists of bytes.
use vanguard_go.Prelude.{
  Bytes, [], codes, err, false, length, none, ok, refl, some, true, ℕ, ◌++◌, ◌∷◌, ◌≡◌, ◌≤◌,
}
use vanguard_go.Receive.{
  Arrival, Decoding, chunk, eof, fill_chunk, last_chunk, open_body, or_decode_error, receive,
  receive_chunk, receive_only, receive_open, decode_url,
}
use vanguard_go.Receive.Once.{delivered, delivered-receives, receives, unread}
use vanguard_go.Status.{ErrorChain}

abbrev plain_chain : ErrorChain ℕ
plain_chain = record {
  as_type = λ e. none;
  deadline = λ e. false;
  canceled = λ e. false;
  text = λ e. [];
}

abbrev upload : Decoding Bytes ℕ
upload = record {
  client_streams = false;
  has_body_fields = true;
  has_compressor = false;
  is_too_large = λ e. false;
  limit_text = [];
  chain = plain_chain;
  decode_body = λ msg. ok (msg ++ codes "body");
  decode_request_url = λ msg. ok (msg ++ codes "url");
  set_body = λ bytes msg. ok (msg ++ bytes);
}

abbrev arrival : Arrival ℕ
arrival = record {
  content_length = some 4;
  probed = 0;
  decompress_error = none;
  next_chunk = chunk (codes "part");
}

abbrev at_end : Arrival ℕ
at_end = record arrival { next_chunk = last_chunk }

unary :
    receives upload ((arrival, []) ∷ ((arrival, []) ∷ [])) unread
    ≡ ok (codes "bodyurl") ∷ (err eof ∷ [])
unfolding receive receive_open receive_only or_decode_error decode_url open_body
unary = refl

streamed :
    receives
      (record upload { client_streams = true })
      ((arrival, []) ∷ ((arrival, []) ∷ ((at_end, []) ∷ [])))
      unread
    ≡ ok (codes "parturl") ∷ (ok (codes "part") ∷ (err eof ∷ []))
unfolding receive receive_open receive_chunk fill_chunk or_decode_error decode_url open_body
streamed = refl

delivered-receives_example :
    length (delivered upload (receives upload ((arrival, []) ∷ ((arrival, []) ∷ [])) unread)) ≤ 1
delivered-receives_example = delivered-receives upload ((arrival, []) ∷ ((arrival, []) ∷ [])) refl
