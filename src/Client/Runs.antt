-- ===== src/Client/Runs.antt =====
-- Streams after any calls in any order.
use vanguard_go.Client.{
  Calling, ClientError, ClientStream, Connection, Response, new_client_stream, nil_dereference,
}
use vanguard_go.Client.Http.{decode_response}
use vanguard_go.Client.Answering.{answer-IsSound}
use vanguard_go.Client.Kept.{close-IsSound, expire-IsSound, send-IsSound}
use vanguard_go.Client.Calls.{
  Event, Reading, answer, answering, await_response, blocked, closing, closing_send, do_error,
  expiring, failed, receive, receiving, run, sending, step,
}
use vanguard_go.Client.Sides.{IsSound, close_send-IsAnswerable, close_send-IsSound, send-Kept}
use vanguard_go.Client.Sound.{
  IsAnswerable, NoPanic, Outcome, is_member, respond_error-responded, pending, refused, replied,
}
use vanguard_go.Client.Receiving.{receive_sound}
use vanguard_go.Client.Ruleless.{IsIdle, step-IsIdle}
use vanguard_go.Client.Stream.{close_send, publish, respond, respond_error, send}
use vanguard_go.Prelude.{
  Bool, List, Option, Result, [], arith, inl, inr, none, refl, true, ℕ, ◌∷◌, ◌≡◌, ◌≢◌, ◌≤◌,
}
use vanguard_go.Prelude.Branches.{if_holds, option_holds, result_holds}

module _ {M C E : Type 0} (call : Calling M C E) where
  abbrev pub Stream : Type 0
  Stream = ClientStream C E

  -- A sound stream, idle when its method has no rule.
  abbrev IsWhole : Stream → Type 0
  IsWhole s = IsSound call s × (call.rule ≡ none → IsIdle call s)

  step-IsSound : (event : Event M C E) (s : Stream) → IsWhole s → IsSound call (step call event s)
  unfolding step
  step-IsSound (sending io msg) s (h, _) = send-IsSound call io msg s h
  step-IsSound (closing_send io) s (h, _) = close_send-IsSound call io s h
  step-IsSound (answering io outcome) s (h, _) = answer-IsSound call io outcome s h
  step-IsSound (receiving reading msg) s (h, idle) =
      (receive_sound call reading msg s h (λ n. (idle n).1)).0
  step-IsSound closing s (h, _) = close-IsSound call s h
  step-IsSound (expiring e) s (h, _) = expire-IsSound call e s h

  run-IsWhole : (events : List (Event M C E)) (s : Stream) → IsWhole s → IsWhole (run call events s)
  unfolding run
  run-IsWhole [] s h = h
  run-IsWhole (event ∷ events) s h =
      run-IsWhole events (step call event s)
        (step-IsSound event s h, λ n. step-IsIdle call n event s (h.1 n))

  new_client_stream-IsSound : IsSound call new_client_stream
  new_client_stream-IsSound = (
    (pending, λ _. refl, λ b m. absurd (ground (arith, m)), λ h. absurd (ground (arith, h))),
    λ h. absurd (ground (arith, h)),
  )

  -- The stream after calls, from its beginning.
  abbrev pub after : List (Event M C E) → Stream
  after events = run call events new_client_stream

  after-IsWhole : (events : List (Event M C E)) → IsWhole (after events)
  after-IsWhole events =
      run-IsWhole events new_client_stream (new_client_stream-IsSound, λ _. (refl, refl))

  after-IsSound : (events : List (Event M C E)) → IsSound call (after events)
  after-IsSound events = (after-IsWhole events).0

  once :
      {b : Bool} {n : ℕ} {r : Option (Response C)} {d : Option (ClientError E)} {w : Option ℕ}
      → Outcome b n r d w
      → n ≤ 1
  once pending = omega arith
  once (replied resp) = omega arith
  once (refused e raw_body h) = omega arith

  -- After any calls on a stream, with the responses and the errors of the HTTP client between them
  -- in any order, `ready` has been closed once at most, and neither the next Send nor the next
  -- Receive dereferences nil, nor returns the error of one that did.
  pub run-NeverPanics :
      (events : List (Event M C E)) (io : Connection E) (reading : Reading M E) (msg : M)
      → ((after events).ready_closes ≤ 1)
        × NoPanic (send call io msg (after events)).1
        × ((receive call reading msg (after events)).1 ≢ failed nil_dereference)
  run-NeverPanics events io reading msg =
      let (h, idle) = after-IsWhole events in
      (
        once h.0.0,
        (send-Kept call io msg (after events) h.0).no_panic,
        (receive_sound call reading msg (after events) h (λ n. (idle n).1)).1,
      )

  -- Once Close has been called on a stream, at any time between other calls and returns of the HTTP
  -- client, every response body that the HTTP client has returned is closed, also one that it
  -- returns after Close.
  pub run-closed :
      (events : List (Event M C E)) (body : ℕ)
      → (after events).closed ≡ true
      → is_member (after events).opened body ≡ true
      → is_member (after events).body_closes body ≡ true
  run-closed events body closed opened = elim ((after-IsSound events).0.2 body opened) [
    | inl h ↦ h
    | inr (n, _) ↦ absurd (ground (arith, n, closed))
  ]

  answer-responded :
      (io : Connection E) (outcome : Result E (Response C)) (s : Stream)
      → IsAnswerable call s
      → (answer call io outcome s).responded ≡ true
  unfolding answer respond publish respond_error
  answer-responded io outcome s h =
      let P : Stream → Type 0 = λ x. x.responded ≡ true in
      option_holds P s.in_flight (λ n. elim h [ inl r ↦ r | inr f ↦ absurd (ground (arith, n, f)) ])
        (λ _ _.
          result_holds P outcome
            (λ resp _.
              if_holds P s.responded (λ b. b)
                (λ _.
                  result_holds P (decode_response call io.decompress_error resp) (λ _ _. refl)
                    (λ _ _. refl)))
            (λ e _.
              respond_error-responded call (do_error call e s) (record s { in_flight = none })))

  -- After any calls on a stream, CloseSend and then whatever the HTTP client returns leave nothing
  -- to wait for: `awaitResponse`, in CloseSend or Receive, returns.
  pub answer-close_send :
      (events : List (Event M C E)) (io io' : Connection E) (outcome : Result E (Response C))
      → await_response call (answer call io' outcome (close_send call io (after events))) ≢ blocked
  unfolding await_response
  answer-close_send events io io' outcome =
      let closed = close_send call io (after events) in
      let responded =
        answer-responded io' outcome closed
          (close_send-IsAnswerable call io (after events) (after-IsSound events)) in
      let s = answer call io' outcome closed in
      if_holds (λ x. x ≢ blocked) s.responded
        (λ _. option_holds (λ x. x ≢ blocked) s.dispatch (λ _ h. cc) (λ _ _ h. cc))
        (λ b. absurd (ground (arith, b, responded)))
