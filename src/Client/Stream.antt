-- ===== src/Client/Stream.antt =====
-- stream_client.go: the operations of clientStream. A call is one step, but for the work of
-- httpClient.Do: `answer` is what follows its return, in CloseSend of a unary call and in the
-- goroutine of a client stream, so that other calls may come between. Closing the pipe, which ends
-- the request, is not recorded, nor what a failed call of encodeBody has written.
use vanguard_go.Client.{
  Calling, ClientError, ClientStream, Connection, RequestBody, Response, Rule, Url, coded, eof,
  nil_dereference, no_body, piped, plain, whole,
}
use vanguard_go.Client.Http.{coded_with, decode_response, is_eof_error, new_request, request_url}
use vanguard_go.Prelude.{
  Option, [], codes, err, if◌then◌else◌, is_empty, is_some, none, not, ok, some, true, ℕ, ◌&&◌, ◌+◌,
  ◌++◌, ◌||◌, ◌∷◌,
}
use vanguard_go.Server.{copy_except, first_value}
use vanguard_go.Status.{new_error, wrap_error}

module _ {C E : Type 0} where
  abbrev pub close_body : ℕ → ClientStream C E → ClientStream C E
  close_body body s = record s { body_closes = body ∷ s.body_closes }

  -- The outcome is published, and `ready` closed.
  abbrev pub settle : Option (ClientError E) → ClientStream C E → ClientStream C E
  settle dispatch s = record s {
    dispatch = dispatch;
    responded = true;
    ready_closes = s.ready_closes + 1;
  }

  -- `respond` of an error
  unfoldable pub respond_error : ClientError E → ClientStream C E → ClientStream C E
  respond_error e s = if s.responded then s else settle (some e) s

module _ {M C E : Type 0} (call : Calling M C E) where
  abbrev pub Stream : Type 0
  Stream = ClientStream C E

  abbrev pub StreamStep : Type 0
  StreamStep = Stream × Option (ClientError E)

  -- What the info of the call is told of the response.
  unfoldable pub told : Response C → Stream → Stream
  unfolding first_value copy_except
  told resp s =
      let encoding = first_value (codes "Content-Encoding") resp.header in
      elim call.metadata [
        | none ↦ s
        | some _ ↦ record s {
          response_encoding = if is_empty encoding then call.identity else encoding;
          response_header = copy_except [] resp.header s.response_header;
        }
      ]

  unfoldable pub keep_response : Response C → Stream → Stream
  keep_response resp s =
      let kept = record s { response = some resp } in
      if s.closed then close_body resp.body kept else kept

  -- `finishResponse` of the first response, published.
  unfoldable pub publish : Option E → Response C → Stream → Stream
  unfolding decode_response told keep_response
  publish decompress_error resp s =
      let held = record s { raw_body = some resp.body } in
      elim (decode_response call decompress_error resp) [
        | err e ↦ settle (some e) (close_body resp.body held)
        | ok decoded ↦
            settle none
              (keep_response (record decoded { limit = call.max_read_bytes }) (told resp held))
      ]

  -- `respond` of a response
  unfoldable pub respond : Option E → Response C → Stream → Stream
  unfolding publish
  respond decompress_error resp s =
      if s.responded then close_body resp.body s else publish decompress_error resp s

  unfoldable pub open_compressor : Connection E → Stream → StreamStep
  unfolding new_error
  open_compressor io s = elim call.send_compressor [
    | none ↦ (s, none)
    | some _ ↦ elim io.compress_error [
      | some e ↦ (s, some (coded_with 13 (codes "get compressor: " ++ call.chain.text e) e))
      | none ↦ (record s { compressing = true }, none)
    ]
  ]

  unfoldable pub open_body : Connection E → Rule → Url → Stream → StreamStep
  unfolding open_compressor new_request
  open_body io rule url s =
      if not rule.has_request_fields
      then (s, none)
      else if call.client_streams
      then elim (new_request call rule url s.content_type piped) [
        | err e ↦ (s, some e)
        | ok req ↦ open_compressor io (record s { pipe = true; in_flight = some req })
      ]
      else open_compressor io s

  unfoldable pub encode : Connection E → Rule → M → Stream → StreamStep
  unfolding wrap_error
  encode io rule msg s = if not rule.has_request_fields then (s, none) else elim io.encode_error [
    | none ↦ (record s { request_body = s.request_body ++ call.encode_body msg }, none)
    | some e ↦
        if call.is_closed_pipe e || s.responded
        then (s, some eof)
        else (s, some (coded (wrap_error call.chain 3 (codes "encode request body") e)))
  ]

  abbrev pub and_encode : Connection E → Rule → M → StreamStep → StreamStep
  and_encode io rule msg (s, some e) = (s, some e)
  and_encode io rule msg (s, none) = encode io rule msg s

  unfoldable pub first_send : Connection E → Rule → M → Stream → StreamStep
  unfolding request_url open_body encode wrap_error
  first_send io rule msg s = elim (request_url call msg) [
    | err e ↦ (s, some (coded (wrap_error call.chain 3 (codes "encode request URL") e)))
    | ok url ↦
        let content_type =
          if rule.has_request_fields then call.body_content_type msg else s.content_type in
        and_encode io rule msg
          (open_body io rule url (record s { req_url = some url; content_type = content_type }))
  ]

  -- `send`
  unfoldable pub send_message : Connection E → M → Stream → StreamStep
  unfolding first_send encode new_error
  send_message io msg s =
      if is_some s.req_url && not call.client_streams
      then (s, some (plain (codes "vanguard: Send called more than once on REST unary stream")))
      else elim call.rule [
        | none ↦ (s, some (coded (new_error 13 call.no_rule)))
        | some rule ↦ if is_some s.req_url then encode io rule msg s else first_send io rule msg s
      ]

  abbrev pub fail_request : StreamStep → StreamStep
  fail_request (s, none) = (s, none)
  fail_request (s, some e) =
      if is_eof_error call e then (s, some e) else (respond_error e s, some e)

  -- `Send`
  unfoldable pub send : Connection E → M → Stream → StreamStep
  unfolding send_message
  send io msg s = if s.send_closed then (s, some eof) else fail_request (send_message io msg s)

  -- The error of the compressWriter's Close, which a pipe's request ignores.
  unfoldable pub close_writer : Connection E → Stream → Option (ClientError E)
  unfolding new_error
  close_writer io s =
      if s.compressing && not s.pipe
      then elim io.close_error [
        | none ↦ none
        | some e ↦ some (coded_with 13 (codes "compress request: " ++ call.chain.text e) e)
      ]
      else none

  unfoldable pub unary_body : Rule → Stream → RequestBody
  unary_body rule s = elim call.send_compressor [
    | none ↦ if rule.has_request_fields then whole s.request_body else no_body
    | some c ↦
        if rule.has_request_fields
        then whole (if s.compressing then call.compress c s.request_body else s.request_body)
        else no_body
  ]

  unfoldable pub dispatch_request : Url → Stream → StreamStep
  unfolding new_request unary_body
  dispatch_request url s = elim call.rule [
    | none ↦ (s, some nil_dereference)
    | some rule ↦ elim (new_request call rule url s.content_type (unary_body rule s)) [
      | err e ↦ (s, some e)
      | ok req ↦ (record s { in_flight = some req }, none)
    ]
  ]

  -- `finishSend`, up to the call of httpClient.Do
  unfoldable pub finish_send : Connection E → Stream → StreamStep
  unfolding close_writer dispatch_request new_error
  finish_send io s = elim s.req_url [
    | none ↦
        (s, some (coded (new_error 3 (codes "vanguard: CloseSend before Send on REST stream"))))
    | some url ↦ elim (close_writer io s) [
      | some e ↦ (s, some e)
      | none ↦ if s.pipe then (s, none) else dispatch_request url s
    ]
  ]

  abbrev pub publish_error : StreamStep → Stream
  publish_error (s, none) = s
  publish_error (s, some e) = respond_error e s

  -- `CloseSend`, before it awaits the response
  unfoldable pub close_send : Connection E → Stream → Stream
  unfolding finish_send respond_error
  close_send io s =
      if s.send_closed then s else publish_error (finish_send io (record s { send_closed = true }))
