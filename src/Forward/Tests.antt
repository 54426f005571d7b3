-- ===== src/Forward/Tests.antt =====
-- Two requests, of which upstream refuses the second, and responses with their headers.
use vanguard_go.Forward.{
  Downstream, Exchange, JoinErrors, forward, forward_end, forward_result, forwarded, RequestRound,
  ResponseRound, copy_info, forward_requests, forward_responses, request, requests_end, response,
  responses_end, returned, untouched,
}
use vanguard_go.Fields.Sample.{library}
use vanguard_go.Forward.Specs.{Served, ServiceLibrary, forward_method-Served}
use vanguard_go.Methods.Sample.{schemas}
use vanguard_go.Methods.Specs.{Method, no_side_effects}
use vanguard_go.Forward.Verdict.{OnlyNil, Verdict, forward-Verdict}
use vanguard_go.Prelude.{inl, List, arith, [], codes, false, none, refl, some, ℕ, ◌==◌, ◌∷◌, ◌≡◌}
use vanguard_go.Server.{copy_header, copy_except}
use vanguard_go.Status.{ErrorChain}

abbrev plain_chain : ErrorChain ℕ
plain_chain = record {
  as_type = λ e. none;
  deadline = λ e. false;
  canceled = λ e. false;
  text = λ e. [];
}

abbrev rounds : List (RequestRound ℕ ℕ)
rounds = request 1 none ∷ (request 2 (some 9) ∷ (requests_end none ∷ []))

refused :
    forward_requests plain_chain (λ e. e == 9) rounds untouched
    ≡ (record { sent = 1 ∷ []; half_closed = false; canceled = false }, returned none)
unfolding forward_requests
refused = refl

abbrev answers : List (ResponseRound ℕ ℕ)
answers =
    record { header = (codes "A", codes "x" ∷ []) ∷ []; trailer = []; received = response 3 none }
    ∷ (record { header = []; trailer = []; received = responses_end } ∷ [])

abbrev no_response : Downstream ℕ
no_response = record {
  info = some (record { header = []; trailer = [] });
  headers_copied = false;
  sent = [];
}

headers_first :
    (forward_responses plain_chain (λ (e : ℕ). false) answers no_response).0.sent
    ≡ (3, some (record { header = (codes "A", codes "x" ∷ []) ∷ []; trailer = [] })) ∷ []
unfolding forward_responses copy_info copy_header copy_except
headers_first = refl

abbrev books : ServiceLibrary library schemas
books = record {
  methods = λ service. tt ∷ [];
  parent_name = λ desc. codes "library.Books";
  name = λ desc. codes "Find";
  is_streaming_client = λ desc. false;
  is_streaming_server = λ desc. false;
  idempotency = λ desc. some no_side_effects;
  schema_of = λ desc. tt;
  schema_of-descriptor_of = λ desc. refl;
}

forward_method-Served_example : (m : Method library schemas) × Served library schemas books tt m
forward_method-Served_example =
    forward_method-Served library schemas books tt (λ e. ground arith) (λ e. ground arith)
      ((λ e. ground arith), ((λ e. ground arith), ((λ e. ground arith), ((λ e. ground arith), tt))))

-- errors.Join, of which the first error stands for both.
abbrev first_error : JoinErrors ℕ
first_error (some e) c = some e
first_error none (some e) = some (inl e)
first_error none none = none

first_error-OnlyNil : OnlyNil first_error
first_error-OnlyNil (some e) c h = absurd (ground arith)
first_error-OnlyNil none (some e) h = absurd (ground arith)
first_error-OnlyNil none none h = (refl, refl)

abbrev relayed : Exchange ℕ ℕ
relayed = record {
  request_header = some ((codes "A", codes "y" ∷ []) ∷ []);
  call_error = none;
  requests = rounds;
  responses = answers;
  close_error = none;
}

no_error :
    (forward plain_chain (λ e. e == 9) first_error relayed no_response).result ≡ returned none
unfolding forward forward_requests forward_responses forward_result forward_end copy_info
    copy_header copy_except forwarded
no_error = refl

forward-Verdict_example :
    Verdict plain_chain
      (λ e. e == 9)
      first_error
      relayed
      (forward plain_chain (λ e. e == 9) first_error relayed no_response)
forward-Verdict_example =
    forward-Verdict plain_chain (λ e. e == 9) first_error first_error-OnlyNil relayed no_response
