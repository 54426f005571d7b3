-- ===== src/Client/Tests.antt =====
-- Streams of a client with concrete calls.
use vanguard_go.Client.{Calling, Connection, Response, Url, new_client_stream, nil_dereference}
use vanguard_go.Client.Http.{decode_response, join_path, new_request, request_header, request_url}
use vanguard_go.Client.Calls.{
  Event, Reading, answer, answering, await_response, blocked, closing, closing_send, receive, run,
  sending, step, failed, got, receive_response, decode_reply, close,
}
use vanguard_go.Client.Requests.{Derived, request_header-Derived}
use vanguard_go.Client.Runs.{after, answer-close_send, run-NeverPanics, run-closed}
use vanguard_go.Client.Sound.{NoPanic, is_member}
use vanguard_go.Client.Stream.{
  close_send, send, respond, publish, keep_response, told, send_message, first_send, open_body,
  open_compressor, encode, finish_send, dispatch_request, close_writer,
}
use vanguard_go.Prelude.{Bytes, List, [], codes, none, ok, refl, true, ℕ, ◌∷◌, ◌≡◌, ◌≢◌, ◌≤◌}
use vanguard_go.Receive.{last_chunk}
use vanguard_go.Server.{first_value}
use vanguard_go.Client.Sample.{post, unary_call}

abbrev library : Url
library = record { raw_path = codes "/library"; path = codes "/library"; raw_query = [] }

abbrev add_book : Calling Bytes Bytes ℕ
add_book = unary_call (codes "/library") (λ msg. ok (codes "/books", [])) (λ msg. msg)

abbrev calm : Connection ℕ
calm = record {
  compress_error = none;
  encode_error = none;
  close_error = none;
  decompress_error = none;
}

abbrev created : Response Bytes
created = record { status_code = 201; header = []; body = 7; decoder = none; limit = 0 }

abbrev reading : Reading Bytes ℕ
reading = record {
  read_all = ok [];
  next_chunk = last_chunk;
  decode_body = λ type msg. ok (codes "book");
  set_body = λ type bytes msg. ok msg;
}

-- Close comes between CloseSend and the response.
abbrev late_reply : List (Event Bytes Bytes ℕ)
late_reply =
    sending calm (codes "Dune")
    ∷ (closing_send calm ∷ (closing ∷ (answering calm (ok created) ∷ [])))

unary :
    (receive add_book reading [] (
      run add_book
        (sending calm (codes "Dune") ∷ (closing_send calm ∷ (answering calm (ok created) ∷ [])))
        new_client_stream)).1
    ≡ got (codes "book")
unfolding run step send send_message first_send request_url join_path open_body open_compressor
    encode close_send finish_send close_writer dispatch_request new_request answer respond publish
    decode_response told keep_response receive await_response receive_response decode_reply
    first_value
unary = refl

run-NeverPanics_example :
    ((after add_book late_reply).ready_closes ≤ 1)
    × NoPanic (send add_book calm [] (after add_book late_reply)).1
    × ((receive add_book reading [] (after add_book late_reply)).1 ≢ failed nil_dereference)
run-NeverPanics_example = run-NeverPanics add_book late_reply calm reading []

run-closed_example : is_member (after add_book late_reply).body_closes 7 ≡ true
unfolding run step send send_message first_send request_url join_path open_body open_compressor
    encode close_send finish_send close_writer dispatch_request new_request answer respond publish
    decode_response told keep_response close first_value
run-closed_example = run-closed add_book late_reply 7 refl refl

answer-close_send_example :
    await_response add_book (
      answer add_book calm
        (ok created)
        (close_send add_book calm (after add_book (sending calm (codes "Dune") ∷ []))))
    ≢ blocked
answer-close_send_example =
    answer-close_send add_book (sending calm (codes "Dune") ∷ []) calm calm (ok created)

request_header-Derived_example :
    Derived add_book post
      (codes "application/json")
      (request_header add_book post (codes "application/json"))
request_header-Derived_example = request_header-Derived add_book post (codes "application/json")
