-- ===== src/Server/Unary.antt =====
-- A method that does not stream its responses sends one message.
use vanguard_go.Prelude.{
  Bool-cases, Bytes, List, Option, Option-cases, [], arith, false, inl, inr, none, not, refl, some,
  subst, sym, true, ◌&&◌, ◌∙◌, ◌∷◌, ◌≡◌,
}
use vanguard_go.Server.{
  Header, Io, SendError, ServerStream, Serving, close_step, close_stream, flush_headers, send,
  send_body, send_headers, sent_twice, set_content_type, write, write_head,
}
use vanguard_go.Server.Once.{send_again}
use vanguard_go.Server.Sending.{Call, call, calls, closes, sends, sends_headers}

module _ {M E : Type 0} (serving : Serving M E) where
  pub flush_headers-sent :
      (compressor : Option Bytes) (metadata : Header) (io : Io E) (s : ServerStream)
      → (flush_headers serving compressor metadata io s).0.sent ≡ s.sent
  unfolding flush_headers write_head
  flush_headers-sent compressor metadata io s = elim (Bool-cases s.headers_set) [
    | inl e ↦ rw (e, flush_headers) refl
    | inr e ↦ elim (Option-cases compressor) [
      | inl n ↦ rw (e, n, flush_headers) refl
      | inr (name, n) ↦ elim (Option-cases io.compress_error) [
        | inl k ↦ rw (e, n, k, flush_headers) refl
        | inr (x, k) ↦ rw (e, n, k, flush_headers) refl
      ]
    ]
  ]

  write-sent : (bytes : Bytes) (s : ServerStream) → (write serving bytes s).sent ≡ s.sent
  unfolding write
  write-sent bytes s = elim (Bool-cases s.packing) [
    | inl e ↦ rw (e, write) refl
    | inr e ↦ rw (e, write) refl
  ]

  send_body-sent :
      (msg : M) (io : Io E) (s : ServerStream) (e : Option (SendError E))
      → (send_body serving msg io (s, e)).0.sent ≡ s.sent
  unfolding send_body
  send_body-sent msg io s (some e) = refl
  send_body-sent msg io s none =
      let done = write-sent (serving.encode_body msg).0 s in
      elim (Option-cases (serving.encode_body msg).1) [
        | inl k ↦ rw (k, send_body) done
        | inr (x, k) ↦ rw (k, send_body) done
      ]

  pub close_step-sent :
      (io : Io E) (s : ServerStream) (e : Option (SendError E))
      → (close_step serving io (s, e)).0.sent ≡ s.sent
  unfolding close_step
  close_step-sent io s (some e) = refl
  close_step-sent io s none = elim (Bool-cases s.packing) [
    | inl e ↦ rw (e, close_step) refl
    | inr e ↦ rw (e, close_step) refl
  ]

  set_content_type-sent :
      (msg : M) (s : ServerStream) → (set_content_type serving msg s).sent ≡ s.sent
  unfolding set_content_type
  set_content_type-sent msg s = elim (Bool-cases s.headers_set) [
    | inl e ↦ rw (e, set_content_type) refl
    | inr e ↦ rw (e, set_content_type) refl
  ]

  send-sent :
      (msg : M) (metadata : Header) (io : Io E) (s : ServerStream)
      → (send serving msg metadata io s).0.sent ≡ true
  send-sent msg metadata io s = elim (Bool-cases (s.sent && not serving.streaming)) [
    | inl twice ↦
        subst (λ x. x.0.sent ≡ true) (sym (send_again serving msg metadata io s twice))
          (ground (arith, twice))
    | inr allowed ↦
        let ready = set_content_type serving msg (record s { sent = true }) in
        let flushed = flush_headers serving serving.response_compressor metadata io ready in
        let e : (send_body serving msg io flushed).0.sent ≡ true =
          send_body-sent msg io flushed.0 flushed.1
          ∙ flush_headers-sent serving.response_compressor metadata io ready
          ∙ set_content_type-sent msg (record s { sent = true }) in
        unfold send in rw (allowed, send) e
  ]

  call-sent : (c : Call serving) (s : ServerStream) → s.sent ≡ true → (call serving c s).sent ≡ true
  unfolding send_headers close_stream
  call-sent (sends_headers metadata io) s h =
      flush_headers-sent serving.response_compressor metadata io s ∙ h
  call-sent (sends msg metadata io) s h = send-sent msg metadata io s
  call-sent (closes metadata io) s h =
      let flushed = flush_headers serving none metadata io s in
      close_step-sent io flushed.0 flushed.1 ∙ flush_headers-sent none metadata io s ∙ h

  calls-sent :
      (cs : List (Call serving)) (s : ServerStream)
      → s.sent ≡ true
      → (calls serving cs s).sent ≡ true
  calls-sent [] s h = h
  calls-sent (c ∷ cs) s h = calls-sent cs (call serving c s) (call-sent c s h)

  -- When the method does not stream its responses, a Send after another Send, failed or not, and
  -- any calls between them, changes nothing and returns the error of a second Send.
  pub send-send :
      (msg msg' : M) (metadata metadata' : Header) (io io' : Io E) (between : List (Call serving))
      (s : ServerStream)
      → serving.streaming ≡ false
      → send serving msg' metadata' io' (calls serving between (send serving msg metadata io s).0)
        ≡ (calls serving between (send serving msg metadata io s).0, some sent_twice)
  send-send msg msg' metadata metadata' io io' between s unary =
      let later = calls serving between (send serving msg metadata io s).0 in
      let sent =
        calls-sent between (send serving msg metadata io s).0 (send-sent msg metadata io s) in
      send_again serving msg' metadata' io' later (ground (arith, sent, unary))
