-- ===== src/Status/Tests.antt =====
-- Errors and replies at concrete inputs.
use vanguard_go.Prelude.{
  Bytes, Result, [], codes, err, false, none, refl, some, true, ℕ, ◌≡◌, ◌∷◌, arith,
}
use vanguard_go.Status.{
  Any, ConnectError, ErrorChain, StatusCodec, any_of_detail, as_connect_error, context_error,
  grpc_status_from_error, http_error_from_response, http_write_error, new_error,
}
use vanguard_go.Status.Replies.{http_error_from_response-http_write_error}

-- A missing book, a peer's error, and an expired context.
data Failure : Type 0 where
  missing peer expired : Failure

abbrev missing_book : ConnectError Failure
missing_book = record {
  code = 5;
  message = codes "no such book";
  details = record { type_name = codes "library.Hint"; value = 7 ∷ [] } ∷ [];
  is_remote = false;
  cause = none;
}

abbrev failures : ErrorChain Failure
failures = record {
  as_type = λ e. elim e [
    | missing ↦ some missing_book
    | peer ↦ some (record missing_book { is_remote = true })
    | expired ↦ none
  ];
  deadline = λ e. elim e [ missing ↦ false | peer ↦ false | expired ↦ true ];
  canceled = λ e. false;
  text = λ e. codes "failed";
}

late : as_connect_error failures expired ≡ record {
  code = 4;
  message = codes "failed";
  details = [];
  is_remote = false;
  cause = some expired;
}
unfolding as_connect_error context_error new_error
late = refl

abbrev code_five : ℕ
code_five = 5

-- The first detail has the value 7 whenever there is a body.
abbrev plain_codec : StatusCodec
plain_codec = record {
  codec_name = codes "plain";
  marshal_write = λ s. s.code ∷ s.message;
  unmarshal_read = λ body. elim body [
    | [] ↦ (record { code = 0; message = []; details = [] }, false)
    | code ∷ message ↦ (
      record {
        code = code;
        message = message;
        details =
            record { type_url = codes "type.googleapis.com/library.Hint"; value = 7 ∷ [] } ∷ [];
      },
      true,
    )
  ];
}

abbrev no_any : Bytes → Bytes → Result Bytes Any
no_any content_type src = err []

abbrev no_text : ℕ → Bytes
no_text code = []

reported : as_connect_error failures missing ≡ missing_book
unfolding as_connect_error
reported = refl

reads_back :
    plain_codec.unmarshal_read
      (plain_codec.marshal_write (grpc_status_from_error (as_connect_error failures missing)))
    ≡ (grpc_status_from_error (as_connect_error failures missing), true)
unfolding as_connect_error grpc_status_from_error any_of_detail
reads_back = refl

http_error_from_response-http_write_error_example :
    http_error_from_response no_any no_text plain_codec
      (http_write_error failures plain_codec [] missing).status_code
      []
      (http_write_error failures plain_codec [] missing).body
    ≡ some (record (as_connect_error failures missing) { is_remote = true; cause = none })
http_error_from_response-http_write_error_example =
    http_error_from_response-http_write_error failures plain_codec no_any no_text [] [] missing
      (unfold as_connect_error in λ e. omega arith) (unfold as_connect_error in omega arith)
      (unfold as_connect_error in ground arith) reads_back
