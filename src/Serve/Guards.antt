-- ===== src/Serve/Guards.antt =====
-- The requests that reach a handler, and the replies to the others.
use vanguard_go.Compression.{negotiate}
use vanguard_go.Fields.Descriptors.{Reflection}
use vanguard_go.Prelude.{
  Bool-cases, Bytes, Option, Option-cases, Result, Result-cases, [], arith, codes, err, inl, inr,
  is_empty, none, ok, refl, some, subst, sym, true, ℕ, ◌<◌, ◌∷◌, ◌≡◌, ◌≢◌, ◌≤◌,
}
use vanguard_go.Prelude.Map.{Map, put}
use vanguard_go.Route.Target.{RouteTarget}
use vanguard_go.Route.Trie.{match}
use vanguard_go.Serve.{
  Ready, Request, RestHandler, admit, refuse, refuse_unrouted, rest_decode_timeout, route_request,
  timeout_of,
}
use vanguard_go.Server.{Header, first_value}
use vanguard_go.Status.{ConnectError, Reply, http_write_error, http_write_status, new_error}
use vanguard_go.Status.Codes.{http_status_code_from_rpc_range}
use vanguard_go.Status.Errors.{as_connect_error-Classified}

-- The status of a reply is an error's.
pub record IsError (reply : Reply) : Type 0 where
  pub at_least : 400 ≤ reply.status_code
  pub below : reply.status_code < 600

is_empty-nil : (s : Bytes) → is_empty s ≡ true → s ≡ []
is_empty-nil [] h = refl
is_empty-nil (c ∷ s) h = absurd (ground (arith, h))

module _ (r : Reflection) {C E : Type 0} (h : RestHandler r C E) where
  -- The timeout of a request: none without the header, or the duration that the header decodes to.
  pub data IsTimed (request : Request) : Option ℕ → Type 0 where
    untimed : first_value (codes "X-Server-Timeout") request.header ≡ [] → IsTimed request none
    timed_by :
        (duration : ℕ)
        → first_value (codes "X-Server-Timeout") request.header ≢ []
        → rest_decode_timeout h.floats (first_value (codes "X-Server-Timeout") request.header)
          ≡ ok duration
        → IsTimed request (some duration)

  -- A request that the handler of a method gets.
  pub record IsAdmitted (request : Request) (ready : Ready r C) : Type 0 where
    pub matched : (match request.escaped_path request.method h.routes).0 ≡ some ready.target
    pub carried : ready.target.unsupported ≡ none
    pub negotiated :
        negotiate h.identity h.name_of
          (first_value (codes "Content-Encoding") request.header)
          (first_value (codes "Accept-Encoding") request.header)
          h.compressors
        ≡ ok (ready.request_compressor, ready.response_compressor)
    pub timed : IsTimed request ready.timeout

  module _ (found : (c : ConnectError E) → h.chain.as_type (h.inject c) ≡ some c) where
    refuse-IsError :
        (header : Header) (code : ℕ) (message : Bytes)
        → code ≢ 0
        → IsError (refuse r h header code message)
    unfolding refuse http_write_error http_write_status new_error
    refuse-IsError header code message coded =
        let own =
          (as_connect_error-Classified h.chain (h.inject (new_error code message))).own
            (new_error code message) (found (new_error code message)) refl in
        elim (http_status_code_from_rpc_range code) [
          | inl (e, _) ↦ absurd (coded e)
          | inr (_, low, high) ↦ rw (own) (record { at_least = low; below = high })
        ]

    refuse_unrouted-IsError :
        (request : Request) (allowed : Option (Map (RouteTarget r))) (header : Header)
        → IsError (refuse_unrouted r h request allowed header)
    unfolding refuse_unrouted http_write_status
    refuse_unrouted-IsError request none header = refuse-IsError header 5 _ (λ e. omega arith)
    refuse_unrouted-IsError request (some []) header = refuse-IsError header 5 _ (λ e. omega arith)
    refuse_unrouted-IsError request (some (m ∷ ms)) header = record {
      at_least = omega arith;
      below = omega arith;
    }

    timeout_of-IsError :
        (request : Request) (header : Header) (reply : Reply)
        → timeout_of r h request header ≡ err reply
        → IsError reply
    unfolding timeout_of
    timeout_of-IsError request header reply e =
        let timeout = first_value (codes "X-Server-Timeout") request.header in
        elim (Bool-cases (is_empty timeout)) [
          | inl blank ↦ absurd (ground arith)
          | inr given ↦ elim (Result-cases (rest_decode_timeout h.floats timeout)) [
            | inl (d, k) ↦ absurd (ground arith)
            | inr (x, k) ↦
                let same : refuse r h header 3 (h.timeout_text x) ≡ reply = ground arith in
                rw (← same) (refuse-IsError header 3 (h.timeout_text x) (λ z. omega arith))
          ]
        ]

    timeout_of-IsTimed :
        (request : Request) (header : Header) (timeout : Option ℕ)
        → timeout_of r h request header ≡ ok timeout
        → IsTimed request timeout
    unfolding timeout_of
    timeout_of-IsTimed request header timeout e =
        let given = first_value (codes "X-Server-Timeout") request.header in
        elim (Bool-cases (is_empty given)) [
          | inl blank ↦
              let same : none ≡ timeout = ground (arith, e, blank) in
              subst (IsTimed request) same (untimed (is_empty-nil given blank))
          | inr some_given ↦ elim (Result-cases (rest_decode_timeout h.floats given)) [
            | inl (x, k) ↦
                let same : some x ≡ timeout = ground (arith, e, some_given, k) in
                subst (IsTimed request) same
                  (timed_by x (λ n. absurd (ground (arith, n, some_given))) k)
            | inr (x, k) ↦ absurd (ground arith)
          ]
        ]

    -- What `admit` returns for a target.
    Admitted : Request → RouteTarget r → Result Reply (Ready r C) → Type 0
    Admitted request target (err reply) = IsError reply
    Admitted request target (ok ready) =
        (match request.escaped_path request.method h.routes).0 ≡ some target
        → IsAdmitted request ready

    admit-Admitted :
        (request : Request) (header : Header) (target : RouteTarget r)
        → Admitted request target (admit r h request header target)
    unfolding admit Admitted http_write_status
    admit-Admitted request header target = elim (Option-cases target.unsupported) [
      | inr (reason, u) ↦ rw (u, admit) (record { at_least = omega arith; below = omega arith })
      | inl u ↦
          let sent = first_value (codes "Content-Encoding") request.header in
          let accept = first_value (codes "Accept-Encoding") request.header in
          elim (Result-cases (negotiate h.identity h.name_of sent accept h.compressors)) [
            | inr (e, n) ↦
                rw (u, n, admit)
                  (refuse-IsError (put (codes "Accept-Encoding") (h.compressors.names ∷ []) header)
                    12 (h.negotiate_text e) (λ z. omega arith))
            | inl ((sends, answers), n) ↦ elim (Result-cases (timeout_of r h request header)) [
              | inr (reply, t) ↦ rw (u, n, t, admit) (timeout_of-IsError request header reply t)
              | inl (timeout, t) ↦
                  let ready : Ready r C = record {
                    target = target;
                    request_compressor = sends;
                    response_compressor = answers;
                    timeout = timeout;
                  } in
                  let e : admit r h request header target ≡ ok ready = ground (arith, u, n, t) in
                  subst (Admitted request target) (sym e) (λ m. record {
                    matched = m;
                    carried = u;
                    negotiated = n;
                    timed = timeout_of-IsTimed request header timeout t;
                  })
            ]
          ]
    ]

    -- The request is answered with the status of an error or gets to a handler.
    pub Routed : Request → Result Reply (Ready r C) → Type 0
    Routed request (err reply) = IsError reply
    Routed request (ok ready) = IsAdmitted request ready

    Admitted-Routed :
        (request : Request) (target : RouteTarget r) (result : Result Reply (Ready r C))
        → (match request.escaped_path request.method h.routes).0 ≡ some target
        → Admitted request target result
        → Routed request result
    unfolding Admitted Routed
    Admitted-Routed request target (err reply) m a = a
    Admitted-Routed request target (ok ready) m a = a m

    -- When an error with a code is found as itself in its chain: a request gets either a reply
    -- whose status is from 400 to 599, or to a handler, and then with the target that match finds
    -- for its path and method, which REST can carry, the compressors that were negotiated from its
    -- headers, and as the timeout the duration that its X-Server-Timeout decodes to, or none without
    -- that header.
    pub route_request-Routed :
        (request : Request) (header : Header) → Routed request (route_request r h request header)
    unfolding route_request Routed Admitted
    route_request-Routed request header =
        elim (Option-cases (match request.escaped_path request.method h.routes).0) [
          | inl m ↦ rw (m, route_request) (refuse_unrouted-IsError request _ header)
          | inr (target, m) ↦
              let e : route_request r h request header ≡ admit r h request header target =
                rw (m, route_request) refl in
              subst (Routed request) (sym e) (
                Admitted-Routed request target (admit r h request header target) m
                  (admit-Admitted request header target))
        ]
