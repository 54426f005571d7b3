-- ===== src/Server/Tests.antt =====
-- The sending side with messages that are their own bytes.
use vanguard_go.Prelude.{Bytes, List, [], codes, false, none, refl, some, ℕ, ◌∷◌, ◌≡◌}
use vanguard_go.Server.{Header, Io, Serving, close_stream, send}
use vanguard_go.Server.Sending.{Call, calls, calls-IsSound, closes, sends}
use vanguard_go.Server.Sound.{IsSound, fresh}

abbrev unary_serving : Serving Bytes ℕ
unary_serving = record {
  streaming = false;
  response_compressor = some (codes "gzip");
  default_content_type = codes "application/json";
  body_content_type = λ msg. codes "application/json";
  encode_body = λ msg. (msg, none);
}

abbrev no_failure : Io ℕ
no_failure = record {
  compress_error = none;
  flush_compressor_error = none;
  flush_error = none;
  close_error = none;
}

abbrev no_compressor : Io ℕ
no_compressor = record no_failure { compress_error = some 3 }

abbrev metadata : Header
metadata = (codes "X-Shelf", codes "1" ∷ []) ∷ ((codes "Content-Encoding", codes "br" ∷ []) ∷ [])

abbrev sent_book : List (Call unary_serving)
sent_book = sends (codes "book") metadata no_failure ∷ (closes metadata no_failure ∷ [])

abbrev book_head : Header
book_head =
    (codes "Content-Type", codes "application/json" ∷ [])
    ∷ ((codes "X-Shelf", codes "1" ∷ []) ∷ ((codes "Content-Encoding", codes "gzip" ∷ []) ∷ []))

book_packed : (calls unary_serving sent_book (fresh [])).packed ≡ codes "book"
unfolding send close_stream
book_packed = refl

calls-IsSound_example :
    IsSound unary_serving
      (calls unary_serving (sends (codes "a") [] no_compressor ∷ sent_book) (fresh []))
calls-IsSound_example =
    calls-IsSound unary_serving [] (sends (codes "a") [] no_compressor ∷ sent_book) refl
