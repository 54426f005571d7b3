-- ===== src/Client/Ruleless.antt =====
-- A stream whose method has no HTTP rule: no request is dispatched, so no response is kept.
use vanguard_go.Client.{Calling, ClientError, ClientStream, Connection}
use vanguard_go.Client.Calls.{
  Event, Reading, answer, answering, await_response, close, closing, closing_send, expire, expiring,
  receive, receiving, sending, step, Received,
}
use vanguard_go.Client.Http.{is_eof_error}
use vanguard_go.Client.Receiving.{awaited_holds}
use vanguard_go.Client.Stream.{
  close_send, close_writer, dispatch_request, fail_request, finish_send, publish_error,
  respond_error, send, send_message,
}
use vanguard_go.Prelude.{Option, is_some, none, not, some, true, ◌&&◌, ◌≡◌}
use vanguard_go.Prelude.Branches.{if_holds, option_holds}

conflict : {A : Type 0} {o : Option A} {a : A} → o ≡ some a → o ≡ none → ⊥
conflict h k = cc

module _ {M C E : Type 0} (call : Calling M C E) where
  abbrev pub Stream : Type 0
  Stream = ClientStream C E

  abbrev pub StreamStep : Type 0
  StreamStep = Stream × Option (ClientError E)

  -- No request is in flight, and there is no response.
  abbrev pub IsIdle : Stream → Type 0
  IsIdle s = (s.in_flight ≡ none) × (s.response ≡ none)

  abbrev LeavesIdle : StreamStep → Type 0
  LeavesIdle r = IsIdle r.0

  respond_error-IsIdle : (e : ClientError E) (s : Stream) → IsIdle s → IsIdle (respond_error e s)
  unfolding respond_error
  respond_error-IsIdle e s h = if_holds IsIdle s.responded (λ _. h) (λ _. h)

  fail_request-IsIdle : (r : StreamStep) → IsIdle r.0 → LeavesIdle (fail_request call r)
  fail_request-IsIdle (s, none) h = h
  fail_request-IsIdle (s, some e) h =
      if_holds LeavesIdle (is_eof_error call e) (λ _. h) (λ _. respond_error-IsIdle e s h)

  publish_error-IsIdle : (r : StreamStep) → IsIdle r.0 → IsIdle (publish_error call r)
  publish_error-IsIdle (s, none) h = h
  publish_error-IsIdle (s, some e) h = respond_error-IsIdle e s h

  module _ (ruleless : call.rule ≡ none) where
    send-IsIdle :
        (io : Connection E) (msg : M) (s : Stream) → IsIdle s → IsIdle (send call io msg s).0
    unfolding send send_message
    send-IsIdle io msg s h =
        if_holds LeavesIdle s.send_closed (λ _. h)
          (λ _. fail_request-IsIdle (send_message call io msg s) (
            if_holds LeavesIdle (is_some s.req_url && not call.client_streams) (λ _. h)
              (λ _.
                option_holds LeavesIdle call.rule (λ _. h)
                  (λ rule k. absurd (conflict k ruleless)))))

    finish_send-IsIdle :
        (io : Connection E) (s : Stream) → IsIdle s → IsIdle (finish_send call io s).0
    unfolding finish_send dispatch_request
    finish_send-IsIdle io s h =
        option_holds LeavesIdle s.req_url (λ _. h)
          (λ url _.
            option_holds LeavesIdle (close_writer call io s)
              (λ _.
                if_holds LeavesIdle s.pipe (λ _. h)
                  (λ _.
                    option_holds LeavesIdle call.rule (λ _. h)
                      (λ rule k. absurd (conflict k ruleless))))
              (λ _ _. h))

    close_send-IsIdle : (io : Connection E) (s : Stream) → IsIdle s → IsIdle (close_send call io s)
    unfolding close_send
    close_send-IsIdle io s h =
        let sent = record s { send_closed = true } in
        if_holds IsIdle s.send_closed (λ _. h)
          (λ _. publish_error-IsIdle (finish_send call io sent) (finish_send-IsIdle io sent h))

    receive-IsIdle :
        (reading : Reading M E) (msg : M) (s : Stream)
        → IsIdle s
        → IsIdle (receive call reading msg s).0
    unfolding receive
    receive-IsIdle reading msg s h =
        let P : Stream × Received M E → Type 0 = λ r. IsIdle r.0 in
        if_holds P s.received (λ _. h)
          (λ _.
            awaited_holds P (await_response call s) (λ _. h)
              (λ _. option_holds P s.response (λ _. h) (λ resp k. absurd (conflict k h.1)))
              (λ _ _. h))

    -- Every step of such a stream leaves it idle.
    pub step-IsIdle : (event : Event M C E) (s : Stream) → IsIdle s → IsIdle (step call event s)
    unfolding step answer close expire
    step-IsIdle (sending io msg) s h = send-IsIdle io msg s h
    step-IsIdle (closing_send io) s h = close_send-IsIdle io s h
    step-IsIdle (answering io outcome) s h =
        option_holds IsIdle s.in_flight (λ _. h) (λ _ k. absurd (conflict k h.0))
    step-IsIdle (receiving reading msg) s h = receive-IsIdle reading msg s h
    step-IsIdle closing s h = option_holds IsIdle s.raw_body (λ _. h) (λ _ _. h)
    step-IsIdle (expiring e) s h = option_holds IsIdle s.context (λ _. h) (λ _ _. h)
