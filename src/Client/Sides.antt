-- ===== src/Client/Sides.antt =====
-- The calls of the sending side keep a stream sound.
use vanguard_go.Client.{
  Calling, ClientError, ClientStream, Connection, RequestBody, Rule, Url, nil_dereference, piped,
}
use vanguard_go.Client.Http.{is_eof_error, new_request, request_url}
use vanguard_go.Client.Sound.{
  Core, IsAnswerable, Kept, NoPanic, coded-NoPanic, kept, respond_error-Core,
  respond_error-responded, respond_error-send_closed,
}
use vanguard_go.Client.Stream.{
  and_encode, close_send, close_writer, dispatch_request, encode, fail_request, finish_send,
  first_send, open_body, open_compressor, publish_error, send, send_message, unary_body,
}
use vanguard_go.Prelude.{
  Bool, Bytes, Option, Option-cases, arith, err, false, if◌then◌else◌, inl, inr, is_some, none, not,
  refl, some, subst, true, ◌&&◌, ◌∙◌, ◌≡◌, ◌≢◌, ◌||◌,
}
use vanguard_go.Prelude.Branches.{if_holds, option_holds, result_holds}

module _ {M C E : Type 0} (call : Calling M C E) where
  open_compressor-Kept :
      (io : Connection E) (s : ClientStream C E)
      → Core call s
      → Kept call s.send_closed (open_compressor call io s)
  unfolding open_compressor
  open_compressor-Kept io s c =
      let P = Kept call s.send_closed in
      option_holds P call.send_compressor (λ _. kept call s c tt)
        (λ a _.
          option_holds P io.compress_error
            (λ _. record { core = c; same_side = refl; no_panic = tt })
            (λ e _. kept call s c (coded-NoPanic call _)))

  encode-Kept :
      (io : Connection E) (rule : Rule) (msg : M) (s : ClientStream C E)
      → Core call s
      → Kept call s.send_closed (encode call io rule msg s)
  unfolding encode
  encode-Kept io rule msg s c =
      let P = Kept call s.send_closed in
      if_holds P (not rule.has_request_fields) (λ _. kept call s c tt)
        (λ _.
          option_holds P io.encode_error (λ _. record { core = c; same_side = refl; no_panic = tt })
            (λ e _.
              if_holds P (call.is_closed_pipe e || s.responded) (λ _. kept call s c (λ h. cc))
                (λ _. kept call s c (coded-NoPanic call _))))

  new_request-NoPanic :
      (rule : Rule) (url : Url) (content_type : Bytes) (body : RequestBody) (e : ClientError E)
      → new_request call rule url content_type body ≡ err e
      → e ≢ nil_dereference
  unfolding new_request
  new_request-NoPanic rule url content_type body e h p = elim (Option-cases call.build_error) [
    | inl k ↦ absurd (ground (arith, k, h))
    | inr (x, k) ↦ absurd (ground (arith, k, h, p))
  ]

  open_body-Kept :
      (io : Connection E) (rule : Rule) (url : Url) (s : ClientStream C E)
      → Core call s
      → Kept call s.send_closed (open_body call io rule url s)
  unfolding open_body
  open_body-Kept io rule url s c =
      let P = Kept call s.send_closed in
      if_holds P (not rule.has_request_fields) (λ _. kept call s c tt)
        (λ _.
          if_holds P call.client_streams
            (λ _.
              result_holds P (new_request call rule url s.content_type piped)
                (λ req _.
                  let piping = record s { pipe = true; in_flight = some req } in
                  open_compressor-Kept io piping (c.0, c.1, c.2, λ _. inr refl))
                (λ e k. kept call s c (new_request-NoPanic rule url s.content_type piped e k)))
            (λ _. open_compressor-Kept io s c))

  and_encode-Kept :
      (io : Connection E) (rule : Rule) (msg : M) (b : Bool)
      (r : ClientStream C E × Option (ClientError E))
      → Kept call b r
      → Kept call b (and_encode call io rule msg r)
  and_encode-Kept io rule msg b (s, some e) k = k
  and_encode-Kept io rule msg b (s, none) k =
      subst (λ x. Kept call x (encode call io rule msg s)) k.same_side
        (encode-Kept io rule msg s k.core)

  first_send-Kept :
      (io : Connection E) (rule : Rule) (msg : M) (s : ClientStream C E)
      → call.rule ≡ some rule
      → Core call s
      → Kept call s.send_closed (first_send call io rule msg s)
  unfolding first_send
  first_send-Kept io rule msg s ruled c =
      result_holds (Kept call s.send_closed) (request_url call msg)
        (λ url _.
          let content_type =
            if rule.has_request_fields then call.body_content_type msg else s.content_type in
          let named = record s { req_url = some url; content_type = content_type } in
          and_encode-Kept io rule msg s.send_closed (open_body call io rule url named) (
            open_body-Kept io rule url named
              (c.0, λ n. absurd (ground (arith, n, ruled)), c.2, c.3)))
        (λ e _. kept call s c (coded-NoPanic call _))

  send_message-Kept :
      (io : Connection E) (msg : M) (s : ClientStream C E)
      → Core call s
      → Kept call s.send_closed (send_message call io msg s)
  unfolding send_message
  send_message-Kept io msg s c =
      let P = Kept call s.send_closed in
      if_holds P (is_some s.req_url && not call.client_streams) (λ _. kept call s c (λ h. cc))
        (λ _.
          option_holds P call.rule (λ _. kept call s c (coded-NoPanic call _))
            (λ rule k.
              if_holds P (is_some s.req_url) (λ _. encode-Kept io rule msg s c)
                (λ _. first_send-Kept io rule msg s k c)))

  fail_request-Kept :
      (b : Bool) (r : ClientStream C E × Option (ClientError E))
      → Kept call b r
      → Kept call b (fail_request call r)
  fail_request-Kept b (s, none) k = k
  fail_request-Kept b (s, some e) k =
      if_holds (Kept call b) (is_eof_error call e) (λ _. k)
        (λ _. record {
          core = respond_error-Core call e s k.no_panic k.core;
          same_side = respond_error-send_closed call e s ∙ k.same_side;
          no_panic = k.no_panic;
        })

  pub send-Kept :
      (io : Connection E) (msg : M) (s : ClientStream C E)
      → Core call s
      → Kept call s.send_closed (send call io msg s)
  unfolding send
  send-Kept io msg s c =
      if_holds (Kept call s.send_closed) s.send_closed (λ _. kept call s c (λ h. cc))
        (λ _.
          fail_request-Kept s.send_closed (send_message call io msg s)
            (send_message-Kept io msg s c))

  -- The sending side is closed: an error to publish, or a request that will be answered.
  record Finished (r : ClientStream C E × Option (ClientError E)) : Type 0 where
    core : Core call r.0
    no_panic : NoPanic r.1
    answered : is_some r.1 ≡ false → IsAnswerable call r.0

  Finished-error :
      (s : ClientStream C E) (e : ClientError E)
      → Core call s
      → e ≢ nil_dereference
      → Finished (s, some e)
  Finished-error s e c h = record {
    core = c;
    no_panic = h;
    answered = λ k. absurd (ground (arith, k));
  }

  dispatch_request-Finished :
      (url : Url) (s : ClientStream C E)
      → s.req_url ≡ some url
      → Core call s
      → Finished (dispatch_request call url s)
  unfolding dispatch_request
  dispatch_request-Finished url s named c =
      option_holds Finished call.rule (λ k. absurd (ground (arith, c.1 k, named)))
        (λ rule k.
          result_holds Finished (new_request call rule url s.content_type (unary_body call rule s))
            (λ req _. record {
              core = (c.0, c.1, c.2, λ _. inr refl);
              no_panic = tt;
              answered = λ _. inr refl;
            })
            (λ e n.
              Finished-error s e c
                (new_request-NoPanic rule url s.content_type (unary_body call rule s) e n)))

  close_writer-NoPanic :
      (io : Connection E) (s : ClientStream C E) → NoPanic (close_writer call io s)
  unfolding close_writer
  close_writer-NoPanic io s =
      if_holds NoPanic (s.compressing && not s.pipe)
        (λ _. option_holds NoPanic io.close_error (λ _. tt) (λ e _. coded-NoPanic call _)) (λ _. tt)

  finish_send-Finished :
      (io : Connection E) (s : ClientStream C E) → Core call s → Finished (finish_send call io s)
  unfolding finish_send
  finish_send-Finished io s c =
      option_holds Finished s.req_url (λ _. Finished-error s _ c (coded-NoPanic call _))
        (λ url named.
          option_holds Finished (close_writer call io s)
            (λ _.
              if_holds Finished s.pipe
                (λ p. record { core = c; no_panic = tt; answered = λ _. c.3 p })
                (λ _. dispatch_request-Finished url s named c))
            (λ e k. Finished-error s e c (subst NoPanic k (close_writer-NoPanic io s))))

  publish_error-Core :
      (r : ClientStream C E × Option (ClientError E))
      → Finished r
      → Core call (publish_error call r) × IsAnswerable call (publish_error call r)
  publish_error-Core (s, none) f = (f.core, f.answered refl)
  publish_error-Core (s, some e) f =
      (respond_error-Core call e s f.no_panic f.core, inl (respond_error-responded call e s))

  -- The sending side is open, or an outcome is there or to come.
  abbrev pub IsSound : ClientStream C E → Type 0
  IsSound s = Core call s × (s.send_closed ≡ true → IsAnswerable call s)

  pub close_send-IsSound :
      (io : Connection E) (s : ClientStream C E) → IsSound s → IsSound (close_send call io s)
  unfolding close_send
  close_send-IsSound io s (c, a) =
      if_holds IsSound s.send_closed (λ _. (c, a))
        (λ _.
          let closing = record s { send_closed = true } in
          let (core, answerable) =
            publish_error-Core (finish_send call io closing) (finish_send-Finished io closing c) in
          (core, λ _. answerable))

  pub close_send-IsAnswerable :
      (io : Connection E) (s : ClientStream C E)
      → IsSound s
      → IsAnswerable call (close_send call io s)
  unfolding close_send
  close_send-IsAnswerable io s (c, a) = if_holds (IsAnswerable call) s.send_closed a (λ _.
      let closing = record s { send_closed = true } in
      (publish_error-Core (finish_send call io closing) (finish_send-Finished io closing c)).1)
