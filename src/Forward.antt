-- ===== src/Forward.antt =====
-- forward.go: `forward` and its loops `forwardRequests` and `forwardResponses`. What
-- the two streams give in each round is a list; a loop whose rounds are over still runs. The
-- goroutines of `forward` share no state but the result of the first loop, if it is there.
pub mod Relayed
pub mod Verdict
pub mod Specs
mod Tests
use vanguard_go.Prelude.{
  Bool, Bytes, List, Option, [], false, if◌then◌else◌, none, not, some, true, ◌&&◌, ◌++◌, ◌∷◌, ◌⊎◌,
  inl,
}
use vanguard_go.Server.{Header, copy_header}
use vanguard_go.Status.{ConnectError, ErrorChain, forward_error}

-- A round of `forwardRequests`: downstream ends, with the error of upstream's CloseSend, or fails,
-- or gives a message, with the error of upstream's Send.
pub data RequestRound (M E : Type 0) : Type 0 where
  requests_end : Option E → RequestRound M E
  requests_fail : E → RequestRound M E
  request : M → Option E → RequestRound M E

-- Whether a loop runs, or has returned, none for nil.
pub data Loop (E : Type 0) : Type 0 where
  running : Loop E
  returned : Option (E ⊎ ConnectError E) → Loop E

-- What upstream was given, and whether its call was canceled.
pub record Upstream (M : Type 0) : Type 0 where
  pub sent : List M
  pub half_closed : Bool
  pub canceled : Bool

-- A round of `forwardResponses`: the headers and trailers of upstream behind its Receive, which
-- ends, fails or gives a message, with the error of downstream's Send.
pub data Response (M E : Type 0) : Type 0 where
  responses_end : Response M E
  responses_fail : E → Response M E
  response : M → Option E → Response M E

pub record ResponseRound (M E : Type 0) : Type 0 where
  pub header : Header
  pub trailer : Header
  pub received : Response M E

-- The info of the downstream call, none for nil, and the messages sent, each with the headers of
-- the info at its Send.
pub record Info : Type 0 where
  pub header : Header
  pub trailer : Header

pub record Downstream (M : Type 0) : Type 0 where
  pub info : Option Info
  pub headers_copied : Bool
  pub sent : List (M × Option Info)

-- forwardError of an error, none for nil
unfoldable pub forwarded : {E : Type 0} → ErrorChain E → Option E → Option (E ⊎ ConnectError E)
unfolding forward_error
forwarded chain none = none
forwarded chain (some e) = some (forward_error chain e)

-- The result of `forward` from the result of the second loop and, if it is there, of the first.
unfoldable pub forward_result :
    {E : Type 0} → Loop E → Option (E ⊎ ConnectError E) → Option (E ⊎ ConnectError E)
forward_result running responses = responses
forward_result (returned none) responses = responses
forward_result (returned (some e)) responses = some e

module _ {M E : Type 0} (chain : ErrorChain E) (is_eof : E → Bool) where
  unfoldable pub forward_requests : List (RequestRound M E) → Upstream M → Upstream M × Loop E
  unfolding forwarded
  forward_requests [] s = (s, running)
  forward_requests (requests_end e ∷ rounds) s =
      (record s { half_closed = true }, returned (forwarded chain e))
  forward_requests (requests_fail e ∷ rounds) s =
      (record s { canceled = true }, returned (some (inl e)))
  forward_requests (request msg none ∷ rounds) s =
      forward_requests rounds (record s { sent = s.sent ++ (msg ∷ []) })
  forward_requests (request msg (some e) ∷ rounds) s =
      if is_eof e then (s, returned none) else (s, returned (forwarded chain (some e)))

  -- The headers are copied once, the trailers behind each Receive.
  unfoldable pub copy_info : Header → Header → Downstream M → Downstream M
  unfolding copy_header
  copy_info header trailer s = elim s.info [
    | none ↦ s
    | some info ↦ record s {
      info = some (record {
        header = if s.headers_copied then info.header else copy_header info.header header;
        trailer = copy_header info.trailer trailer;
      });
      headers_copied = true;
    }
  ]

  unfoldable pub forward_responses : List (ResponseRound M E) → Downstream M → Downstream M × Loop E
  unfolding forwarded copy_info
  forward_responses [] s = (s, running)
  forward_responses (round ∷ rounds) s =
      let copied = copy_info round.header round.trailer s in
      let later = λ (msg : M).
        forward_responses rounds
          (record copied { sent = copied.sent ++ ((msg, copied.info) ∷ []) }) in
      elim round.received [
        | responses_end ↦ (copied, returned none)
        | responses_fail e ↦ (copied, returned (forwarded chain (some e)))
        | response msg failed ↦ elim failed [
          | some e ↦ (copied, returned (some (inl e)))
          | none ↦ later msg
        ]
      ]

-- What happens in a call of `forward`: the error of CallClientStream, the rounds of the two loops up to
-- the end of the second, and the error of upstream's Close. `request_header` is that of the
-- downstream call's info, none without one.
pub record Exchange (M E : Type 0) : Type 0 where
  pub request_header : Option Header
  pub call_error : Option E
  pub requests : List (RequestRound M E)
  pub responses : List (ResponseRound M E)
  pub close_error : Option E

-- The headers of the upstream call; upstream with the first loop, none if it was not opened; and what
-- `forward` returns.
pub record Proxied (M E : Type 0) : Type 0 where
  pub upstream_header : Header
  pub upstream : Option (Upstream M × Loop E)
  pub downstream : Downstream M
  pub result : Loop E

abbrev pub untouched : {M : Type 0} → Upstream M
untouched = record { sent = []; half_closed = false; canceled = false }

unfoldable pub upstream_request_header : Option Header → Header
unfolding copy_header
upstream_request_header none = []
upstream_request_header (some header) = copy_header [] header

abbrev pub JoinErrors : Type 0 → Type 0
JoinErrors E = Option (E ⊎ ConnectError E) → Option E → Option (E ⊎ ConnectError E)

-- The end of `forward`, behind the second loop: its result, joined with the error of Close.
unfoldable pub forward_end : {E : Type 0} → JoinErrors E → Loop E → Option E → Loop E → Loop E
unfolding forward_result
forward_end join_errors first close_error running = running
forward_end join_errors first close_error (returned e) =
    returned (join_errors (forward_result first e) close_error)

module _ {M E : Type 0} (chain : ErrorChain E) (is_eof : E → Bool)
    (join_errors : JoinErrors E) where
  unfoldable pub forward : Exchange M E → Downstream M → Proxied M E
  unfolding upstream_request_header forward_requests forward_responses forward_end forwarded
  forward x downstream = elim x.call_error [
    | some e ↦ record {
      upstream_header = upstream_request_header x.request_header;
      upstream = none;
      downstream = downstream;
      result = returned (forwarded chain (some e));
    }
    | none ↦
        let (upstream, first) = forward_requests chain is_eof x.requests untouched in
        let (downstream', second) = forward_responses chain is_eof x.responses downstream in
        record {
          upstream_header = upstream_request_header x.request_header;
          upstream = some (upstream, first);
          downstream = downstream';
          result = forward_end join_errors first x.close_error second;
        }
  ]
