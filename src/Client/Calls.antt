-- ===== src/Client/Calls.antt =====
-- stream_client.go: `awaitResponse`, `Receive` and `Close` of clientStream, what follows the return
-- of httpClient.Do, and the calls on a stream in any order. A call of `Receive` that blocks is made
-- again.
use vanguard_go.Client.{
  Calling, ClientError, ClientStream, Connection, Response, coded, eof, nil_dereference,
}
use vanguard_go.Client.Http.{coded_with, read_error}
use vanguard_go.Client.Stream.{close_body, close_send, respond, respond_error, send}
use vanguard_go.Prelude.{
  Bytes, List, Option, Result, [], codes, err, if◌then◌else◌, none, not, ok, some, true, ◌++◌, ◌/◌,
  ◌==◌, ◌∷◌,
}
use vanguard_go.Receive.{Chunk, broken, chunk, last_chunk}
use vanguard_go.Server.{first_value}
use vanguard_go.Status.{context_error, http_error_from_response, wrap_error}

-- What `awaitResponse` does: it blocks, fails, or returns nil.
pub data Awaited (E : Type 0) : Type 0 where
  blocked arrived : Awaited E
  unavailable : ClientError E → Awaited E

pub data Received (M E : Type 0) : Type 0 where
  waiting : Received M E
  got : M → Received M E
  failed : ClientError E → Received M E

-- What reading the response's body gives in a call of Receive: to the end, the next chunk, and
-- decoded into a message; `set_body` is setBodyHTTPBody of the chunk.
pub record Reading (M E : Type 0) : Type 0 where
  pub read_all : Result E Bytes
  pub next_chunk : Chunk E
  pub decode_body : Bytes → M → Result E M
  pub set_body : Bytes → Bytes → M → Result E M

-- A call, or the return of httpClient.Do, or the end of the context.
pub data Event (M C E : Type 0) : Type 0 where
  sending : Connection E → M → Event M C E
  closing_send : Connection E → Event M C E
  answering : Connection E → Result E (Response C) → Event M C E
  receiving : Reading M E → M → Event M C E
  closing : Event M C E
  expiring : E → Event M C E

module _ {M C E : Type 0} (call : Calling M C E) where
  abbrev pub Stream : Type 0
  Stream = ClientStream C E

  unfoldable pub await_response : Stream → Awaited E
  unfolding context_error
  await_response s =
      if s.responded
      then elim s.dispatch [ some e ↦ unavailable e | none ↦ arrived ]
      else elim s.context [
        | some e ↦ unavailable (coded (context_error call.chain e))
        | none ↦ blocked
      ]

  unfoldable pub do_error : E → Stream → ClientError E
  unfolding context_error
  do_error e s = elim s.context [
    | some ended ↦ coded (context_error call.chain ended)
    | none ↦ coded_with 14 (codes "http do: " ++ call.chain.text e) e
  ]

  -- What follows the return of httpClient.Do.
  unfoldable pub answer : Connection E → Result E (Response C) → Stream → Stream
  unfolding do_error respond respond_error
  answer io outcome s = elim s.in_flight [
    | none ↦ s
    | some _ ↦ elim outcome [
      | err e ↦ respond_error (do_error e s) (record s { in_flight = none })
      | ok resp ↦
          respond call io.decompress_error resp
            (record s { in_flight = none; opened = resp.body ∷ s.opened })
    ]
  ]

  unfoldable pub error_reply : Response C → Reading M E → M → Received M E
  unfolding read_error first_value http_error_from_response
  error_reply resp reading msg = elim reading.read_all [
    | err e ↦ failed (read_error call e)
    | ok body ↦
        let content_type = first_value (codes "Content-Type") resp.header in
        elim (http_error_from_response call.new_any call.status_text call.status_codec
          resp.status_code content_type body) [ none ↦ got msg | some e ↦ failed (coded e) ]
  ]

  unfoldable pub decode_reply : Response C → Reading M E → M → Received M E
  unfolding read_error first_value wrap_error
  decode_reply resp reading msg = elim call.rule [
    | none ↦ failed nil_dereference
    | some _ ↦ elim (reading.decode_body (first_value (codes "Content-Type") resp.header) msg) [
      | ok filled ↦ got filled
      | err e ↦
          if call.is_too_large e
          then failed (read_error call e)
          else failed (coded (wrap_error call.chain 13 (codes "decode response") e))
    ]
  ]

  -- The receiving side ends, and the response's body is closed.
  abbrev pub finish : Response C → Stream → Stream
  finish resp s = close_body resp.body (record s { received = true })

  unfoldable pub receive_chunk : Response C → Reading M E → M → Stream → Stream × Received M E
  unfolding read_error first_value wrap_error
  receive_chunk resp reading msg s = elim reading.next_chunk [
    | last_chunk ↦ (finish resp s, failed eof)
    | broken e ↦ (finish resp s, failed (read_error call e))
    | chunk bytes ↦ elim call.rule [
      | none ↦ (s, failed nil_dereference)
      | some _ ↦
          elim (reading.set_body (first_value (codes "Content-Type") resp.header) bytes msg) [
            | ok filled ↦ (s, got filled)
            | err e ↦ (s, failed (coded (wrap_error call.chain 13 (codes "decode response") e)))
          ]
    ]
  ]

  unfoldable pub receive_response : Response C → Reading M E → M → Stream → Stream × Received M E
  unfolding error_reply decode_reply receive_chunk
  receive_response resp reading msg s =
      if not (resp.status_code / 100 == 2)
      then (finish resp s, error_reply resp reading msg)
      else if call.server_streams
      then receive_chunk resp reading msg s
      else (finish resp s, decode_reply resp reading msg)

  -- `Receive`
  unfoldable pub receive : Reading M E → M → Stream → Stream × Received M E
  unfolding await_response receive_response
  receive reading msg s = if s.received then (s, failed eof) else elim (await_response s) [
    | blocked ↦ (s, waiting)
    | unavailable e ↦ (record s { received = true }, failed e)
    | arrived ↦ elim s.response [
      | none ↦ (s, failed nil_dereference)
      | some resp ↦ receive_response resp reading msg s
    ]
  ]

  abbrev pub or_canceled : Option E → Option E
  or_canceled none = some call.canceled
  or_canceled (some e) = some e

  -- `Close`
  unfoldable pub close : Stream → Stream
  close s =
      let ended = record s { context = or_canceled s.context; closed = true } in
      elim s.raw_body [ none ↦ ended | some body ↦ close_body body ended ]

  unfoldable pub expire : E → Stream → Stream
  expire e s = elim s.context [ none ↦ record s { context = some e } | some _ ↦ s ]

  unfoldable pub step : Event M C E → Stream → Stream
  unfolding send close_send answer receive close expire
  step (sending io msg) s = (send call io msg s).0
  step (closing_send io) s = close_send call io s
  step (answering io outcome) s = answer io outcome s
  step (receiving reading msg) s = (receive reading msg s).0
  step closing s = close s
  step (expiring e) s = expire e s

  unfoldable pub run : List (Event M C E) → Stream → Stream
  unfolding step
  run [] s = s
  run (event ∷ events) s = run events (step event s)
