-- ===== src/Client/Answering.antt =====
-- The return of httpClient.Do keeps a stream sound.
use vanguard_go.Client.{
  Calling, ClientError, ClientStream, Connection, Response, coded, nil_dereference,
}
use vanguard_go.Client.Http.{decode_response}
use vanguard_go.Client.Calls.{answer, do_error}
use vanguard_go.Client.Sides.{IsSound}
use vanguard_go.Client.Sound.{
  IsPending, Outcome, Outcome-cases, coded-NoPanic, is_member, refused, replied,
}
use vanguard_go.Client.Stream.{keep_response, publish, respond, respond_error, settle, told}
use vanguard_go.Server.{copy_except, first_value}
use vanguard_go.Status.{ConnectError}
use vanguard_go.Prelude.{
  codes, bytes_eq, Bool, Bool-cases, List, Option, Result, [], ap, arith, err, false, if◌then◌else◌,
  inl, inr, is_empty, none, ok, ok-injective, refl, some, subst, sym, true, ℕ, ◌+◌, ◌==◌, ◌∙◌, ◌∷◌,
  ◌≡◌, ◌≢◌, ◌⊎◌, ◌||◌,
}
use vanguard_go.Compression.{get_compressor}
use vanguard_go.Prelude.Branches.{if_holds, option_holds, result_holds}

-- A body that is opened and closed at once.
opened_closed :
    (r : ℕ) (opened closes : List ℕ) {X : ℕ → Type 0}
    → ((b : ℕ) → is_member opened b ≡ true → (is_member closes b ≡ true) ⊎ X b)
    → (b : ℕ) → is_member (r ∷ opened) b ≡ true
    → (is_member (r ∷ closes) b ≡ true) ⊎ X b
opened_closed r opened closes h b m = elim (Bool-cases (r == b)) [
  | inl e ↦ inl (rw e refl)
  | inr e ↦ elim (h b (ground (arith, m, e))) [ inl k ↦ inl (rw (e, k) refl) | inr x ↦ inr x ]
]

-- A body that is opened and kept while the stream is open.
own_body :
    (r : ℕ) (opened closes : List ℕ) (closed : Bool)
    → closed ≡ false
    → ((b : ℕ) → is_member opened b ≡ true → is_member closes b ≡ true)
    → (b : ℕ) → is_member (r ∷ opened) b ≡ true
    → (is_member closes b ≡ true) ⊎ ((closed ≡ false) × (some r ≡ some b))
own_body r opened closes closed n h b m = elim (Bool-cases (r == b)) [
  | inl e ↦ let d : r ≡ b = ground (arith, e) in inr (n, ap some d)
  | inr e ↦ inl (h b (ground (arith, m, e)))
]

pub closed_more :
    (r : ℕ) (closes : List ℕ) (b : ℕ) → is_member closes b ≡ true → is_member (r ∷ closes) b ≡ true
closed_more r closes b h = ground (arith, h)

module _ {M C E : Type 0} (call : Calling M C E) where
  abbrev pub Stream : Type 0
  Stream = ClientStream C E

  -- A decoded response has the body of the response; an error is no panic.
  abbrev SameBody : Response C → Result (ClientError E) (Response C) → Type 0
  SameBody resp r =
      ((decoded : Response C) → r ≡ ok decoded → decoded.body ≡ resp.body)
      × ((e : ClientError E) → r ≡ err e → e ≢ nil_dereference)

  same_body : (resp decoded : Response C) → decoded.body ≡ resp.body → SameBody resp (ok decoded)
  same_body resp decoded h = (λ d k. sym (ap (λ x. x.body) (ok-injective k)) ∙ h, λ e k. cc)

  decoding_failed : (resp : Response C) (e : ConnectError E) → SameBody resp (err (coded e))
  decoding_failed resp e = (λ d k. cc, λ x k h. cc)

  decode_response-SameBody :
      (de : Option E) (resp : Response C) → SameBody resp (decode_response call de resp)
  unfolding decode_response
  decode_response-SameBody de resp =
      let P = SameBody resp in
      let encoding = first_value (codes "Content-Encoding") resp.header in
      if_holds P (is_empty encoding || bytes_eq encoding call.identity)
        (λ _. same_body resp (record resp { decoder = none }) refl)
        (λ _.
          option_holds P (get_compressor call.identity call.name_of encoding call.compressors)
            (λ _. decoding_failed resp _)
            (λ c _.
              option_holds P de (λ _. same_body resp (record resp { decoder = some c }) refl)
                (λ e _. decoding_failed resp _)))

  -- A response that comes first, kept or closed.
  keep_response-IsSound :
      (resp decoded : Response C) (s : Stream)
      → decoded.body ≡ resp.body
      → IsSound call s
      → IsPending s.responded s.ready_closes s.response s.dispatch s.raw_body
      → IsSound call (
          settle none (
            keep_response call decoded (record s {
              in_flight = none;
              opened = resp.body ∷ s.opened;
              raw_body = some resp.body;
            })))
  unfolding keep_response
  keep_response-IsSound resp decoded s same ((o, u, l, p), a) w =
      let outcome : Outcome {C = C} {E = E} true (s.ready_closes + 1) (some decoded) none
          (some resp.body) =
        rw (w.not_ready) (
          subst (λ b. Outcome {C = C} {E = E} true 1 (some decoded) none (some b)) same
            (replied decoded)) in
      let no_other : (b : ℕ) → is_member s.opened b ≡ true → is_member s.body_closes b ≡ true =
        λ b m. elim (l b m) [ inl k ↦ k | inr (_, n) ↦ absurd (ground (arith, n, w.no_body)) ] in
      if_holds (λ x. IsSound call (settle none x)) s.closed
        (λ _. (
          (
            outcome,
            u,
            subst
                (λ r.
                  (b : ℕ)
                  → is_member (resp.body ∷ s.opened) b ≡ true
                  → (is_member (r ∷ s.body_closes) b ≡ true)
                    ⊎ ((s.closed ≡ false) × (some resp.body ≡ some b)))
                (sym same)
                (opened_closed resp.body s.opened s.body_closes (λ b m. inl (no_other b m))),
            λ _. inl refl,
          ),
          λ _. inl refl,
        ))
        (λ n. (
          (
            outcome,
            u,
            own_body resp.body s.opened s.body_closes s.closed n no_other,
            λ _. inl refl,
          ),
          λ _. inl refl,
        ))

  -- The first response.
  publish-IsSound :
      (de : Option E) (resp : Response C) (s : Stream)
      → IsSound call s
      → IsPending s.responded s.ready_closes s.response s.dispatch s.raw_body
      → IsSound call
          (publish call de resp (record s { in_flight = none; opened = resp.body ∷ s.opened }))
  unfolding publish told
  publish-IsSound de resp s ((o, u, l, p), a) w =
      let encoding = first_value (codes "Content-Encoding") resp.header in
      let kept_or_closed = decode_response-SameBody de resp in
      result_holds (IsSound call) (decode_response call de resp)
        (λ decoded k.
          let limited = record decoded { limit = call.max_read_bytes } in
          let same = kept_or_closed.0 decoded k in
          option_holds (λ x. IsSound call (settle none (keep_response call limited x)))
            call.metadata (λ _. keep_response-IsSound resp limited s same ((o, u, l, p), a) w)
            (λ _ _.
              keep_response-IsSound resp limited
                (record s {
                  response_encoding = if is_empty encoding then call.identity else encoding;
                  response_header = copy_except [] resp.header s.response_header;
                })
                same ((o, u, l, p), a) w))
        (λ e k.
          let outcome : Outcome {C = C} {E = E} true (s.ready_closes + 1) s.response (some e)
              (some resp.body) =
            rw (w.not_ready, w.no_response) (refused e (some resp.body) (kept_or_closed.1 e k)) in
          (
            (
              outcome,
              u,
              opened_closed resp.body s.opened s.body_closes (λ b m. elim (l b m) [
                | inl h ↦ inl h
                | inr (_, n) ↦ absurd (ground (arith, n, w.no_body))
              ]),
              λ _. inl refl,
            ),
            λ _. inl refl,
          ))

  respond-IsSound :
      (de : Option E) (resp : Response C) (s : Stream)
      → IsSound call s
      → IsSound call
          (respond call de resp (record s { in_flight = none; opened = resp.body ∷ s.opened }))
  unfolding respond
  respond-IsSound de resp s ((o, u, l, p), a) =
      if_holds (IsSound call) s.responded
        (λ b. ((o, u, opened_closed resp.body s.opened s.body_closes l, λ _. inl b), λ _. inl b))
        (λ b. elim (Outcome-cases o) [
          | inl w ↦ publish-IsSound de resp s ((o, u, l, p), a) w
          | inr d ↦ absurd (ground (arith, b, d))
        ])

  do_error-NoPanic : (e : E) (s : Stream) → do_error call e s ≢ nil_dereference
  unfolding do_error
  do_error-NoPanic e s =
      option_holds (λ x. x ≢ nil_dereference) s.context (λ _. coded-NoPanic call _)
        (λ _ _. coded-NoPanic call _)

  pub answer-IsSound :
      (io : Connection E) (outcome : Result E (Response C)) (s : Stream)
      → IsSound call s
      → IsSound call (answer call io outcome s)
  unfolding answer respond_error
  answer-IsSound io outcome s ((o, u, l, p), a) =
      option_holds (IsSound call) s.in_flight (λ _. ((o, u, l, p), a))
        (λ _ _.
          result_holds (IsSound call) outcome
            (λ resp _. respond-IsSound io.decompress_error resp s ((o, u, l, p), a))
            (λ e _.
              if_holds (IsSound call) s.responded (λ b. ((o, u, l, λ _. inl b), λ _. inl b))
                (λ b. elim (Outcome-cases o) [
                  | inr d ↦ absurd (ground (arith, b, d))
                  | inl w ↦
                      let refusal : Outcome {C = C} {E = E} true (s.ready_closes + 1) s.response
                          (some (do_error call e s)) s.raw_body =
                        rw (w.not_ready, w.no_response)
                          (refused (do_error call e s) s.raw_body (do_error-NoPanic e s)) in
                      ((refusal, u, l, λ _. inl refl), λ _. inl refl)
                ])))
