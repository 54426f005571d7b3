-- ===== src/Forward/Verdict.antt =====
-- What `forward` relays and returns.
use vanguard_go.Forward.{
  RequestRound, Response, ResponseRound, request, requests_end, requests_fail, response,
  responses_end, responses_fail, Downstream, Exchange, JoinErrors, Loop, Proxied, Upstream, forward,
  forward_end, forward_requests, forward_responses, forward_result, returned, running, untouched,
  forwarded,
}
use vanguard_go.Forward.Relayed.{Relayed, forward_requests-Relayed}
use vanguard_go.Prelude.{
  Bool, Bool-cases, List, refl, true, ◌∷◌, Option, Option-cases, [], ap, arith, inl, inr, none,
  some, subst, ◌≡◌, ◌≢◌, ◌⊎◌,
}
use vanguard_go.Status.{ConnectError, ErrorChain, forward_error}

-- A join of errors is nil only if both are.
abbrev pub OnlyNil : {E : Type 0} → JoinErrors E → Type 0
OnlyNil {E} join_errors =
    (e : Option (E ⊎ ConnectError E)) (c : Option E)
    → join_errors e c ≡ none
    → (e ≡ none) × (c ≡ none)

forward_result-none :
    {E : Type 0} (first : Loop E) (e : Option (E ⊎ ConnectError E))
    → forward_result first e ≡ none
    → (e ≡ none) × ((d : E ⊎ ConnectError E) → first ≢ returned (some d))
unfolding forward_result
forward_result-none running e h = (h, λ d k. cc)
forward_result-none (returned none) e h = (h, λ d k. cc)
forward_result-none (returned (some d)) e h = absurd (ground arith)

forward_end-none :
    {E : Type 0} (join_errors : JoinErrors E)
    → OnlyNil join_errors
    → (first second : Loop E) (c : Option E)
    → forward_end join_errors first c second ≡ returned none
    → (c ≡ none) × (second ≡ returned none) × ((d : E ⊎ ConnectError E) → first ≢ returned (some d))
unfolding forward_end
forward_end-none join_errors law first running c h = absurd (ground arith)
forward_end-none join_errors law first (returned e) c h =
    let (none_e, none_c) = law (forward_result first e) c (ground arith) in
    let (d, k) = forward_result-none first e none_e in (none_c, ap returned d, k)

-- Upstream answered in rounds with a response each, which downstream has taken, and then its end.
pub data Answered {M E : Type 0} : List (ResponseRound M E) → Type 0 where
  ends :
      (round : ResponseRound M E) {rounds : List (ResponseRound M E)}
      → round.received ≡ responses_end
      → Answered (round ∷ rounds)
  answers :
      (round : ResponseRound M E) {rounds : List (ResponseRound M E)} (msg : M)
      → round.received ≡ response msg none
      → Answered rounds
      → Answered (round ∷ rounds)

-- Downstream's requests as far as they came: each was sent, and the last of them may be the end,
-- with a CloseSend that has not failed, or a Send that upstream has ended early.
pub data Requested {M E : Type 0} (is_eof : E → Bool) : List (RequestRound M E) → Type 0 where
  under_way : Requested is_eof []
  half_closes : {rounds : List (RequestRound M E)} → Requested is_eof (requests_end none ∷ rounds)
  ended_early :
      (msg : M) (e : E) {rounds : List (RequestRound M E)}
      → is_eof e ≡ true
      → Requested is_eof (request msg (some e) ∷ rounds)
  requests :
      (msg : M) {rounds : List (RequestRound M E)}
      → Requested is_eof rounds
      → Requested is_eof (request msg none ∷ rounds)

module _ {M E : Type 0} (chain : ErrorChain E) (is_eof : E → Bool)
    (join_errors : JoinErrors E) where
  -- A call that is relayed without an error: upstream was opened and closed without one, it ended
  -- its responses, and no request has failed.
  pub record Clean (x : Exchange M E) : Type 0 where
    pub opened : x.call_error ≡ none
    pub closed : x.close_error ≡ none
    pub answered : Answered x.responses
    pub requested : Requested is_eof x.requests

  forward_responses-Answered :
      (rounds : List (ResponseRound M E)) (s : Downstream M)
      → (forward_responses chain is_eof rounds s).1 ≡ returned none
      → Answered rounds
  unfolding forward_responses forwarded
  forward_responses-Answered [] s h = absurd (ground (arith, h))
  forward_responses-Answered (round ∷ rounds) s h =
      received_by (λ s' k. forward_responses-Answered rounds s' k) round.received refl
    where
      received_by :
          ((s' : Downstream M)
            → (forward_responses chain is_eof rounds s').1 ≡ returned none
            → Answered rounds)
          → (r : Response M E) → round.received ≡ r
          → Answered (round ∷ rounds)
      received_by again responses_end e = ends round e
      received_by again (responses_fail d) e = absurd (ground (arith, e, h))
      received_by again (response msg (some d)) e = absurd (ground (arith, e, h))
      received_by again (response msg none) e = answers round msg e (again _ (rw e at h))

  forward_requests-Requested :
      (rounds : List (RequestRound M E)) (s : Upstream M)
      → ((e : E ⊎ ConnectError E) → (forward_requests chain is_eof rounds s).1 ≢ returned (some e))
      → Requested is_eof rounds
  unfolding forward_requests forwarded
  forward_requests-Requested [] s h = under_way
  forward_requests-Requested (requests_end none ∷ rounds) s h = half_closes
  forward_requests-Requested (requests_end (some e) ∷ rounds) s h = absurd (h _ refl)
  forward_requests-Requested (requests_fail e ∷ rounds) s h = absurd (h _ refl)
  forward_requests-Requested (request msg none ∷ rounds) s h =
      requests msg (forward_requests-Requested rounds _ h)
  forward_requests-Requested (request msg (some e) ∷ rounds) s h = elim (Bool-cases (is_eof e)) [
    | inl ended ↦ ended_early msg e ended
    | inr failed ↦ absurd (h (forward_error chain e) (ground (arith, failed)))
  ]

  pub record Verdict (x : Exchange M E) (p : Proxied M E) : Type 0 where
    pub relays :
        (u : Upstream M × Loop E) → p.upstream ≡ some u → Relayed chain is_eof [] x.requests u
    pub clean : p.result ≡ returned none → Clean x

  -- When a join of errors is nil only if both are: whatever the two sides of a proxy do, the
  -- requests reach upstream in order and without a gap; and `forward` returns nil only if
  -- upstream was opened and closed without an error, it answered with responses that downstream has
  -- all taken and then with its end, and each request so far was sent, or upstream had ended
  -- early.
  pub forward-Verdict :
      OnlyNil join_errors
      → (x : Exchange M E) (downstream : Downstream M)
      → Verdict x (forward chain is_eof join_errors x downstream)
  unfolding forward forwarded
  forward-Verdict law x downstream = elim (Option-cases x.call_error) [
    | inr (e, d) ↦ record {
      relays = λ u h. absurd (ground (arith, d, h));
      clean = λ h. absurd (ground (arith, d, h));
    }
    | inl d ↦
        let requests = forward_requests chain is_eof x.requests untouched in
        let responses = forward_responses chain is_eof x.responses downstream in
        record {
          relays = λ u h.
              let same : requests ≡ u = ground (arith, d, h) in
              subst (Relayed chain is_eof [] x.requests) same
                (forward_requests-Relayed chain is_eof x.requests);
          clean = λ h.
              let (closed, answered, requested) =
                forward_end-none join_errors law requests.1 responses.1 x.close_error
                  (ground (arith, d, h)) in
              record {
                opened = d;
                closed = closed;
                answered = forward_responses-Answered x.responses downstream answered;
                requested = forward_requests-Requested x.requests untouched requested;
              };
        }
  ]
