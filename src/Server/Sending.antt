-- ===== src/Server/Sending.antt =====
-- Any sequence of calls of the sending side: the head of the response and its encoding.
use vanguard_go.Prelude.{List, [], inl, inr, none, refl, ◌∷◌, ◌≡◌}
use vanguard_go.Prelude.Map.{get}
use vanguard_go.Server.{
  Header, Io, ServerStream, Serving, close_stream, flush_headers, send, send_headers,
}
use vanguard_go.Server.Sound.{
  IsSound, unwritten, content_encoding, fresh, flush_headers-IsSound, send-IsSound,
  close_step-IsSound,
}

module _ {M E : Type 0} (serving : Serving M E) where
  -- The calls, each with the metadata at its time and the failures of the writers in it.
  pub data Call : Type 0 where
    sends_headers : Header → Io E → Call
    sends : M → Header → Io E → Call
    closes : Header → Io E → Call

  abbrev pub call : Call → ServerStream → ServerStream
  call (sends_headers metadata io) s = (send_headers serving metadata io s).0
  call (sends msg metadata io) s = (send serving msg metadata io s).0
  call (closes metadata io) s = (close_stream serving metadata io s).0

  abbrev pub calls : List Call → ServerStream → ServerStream
  calls [] s = s
  calls (c ∷ cs) s = calls cs (call c s)

  pub call-IsSound : (c : Call) (s : ServerStream) → IsSound serving s → IsSound serving (call c s)
  unfolding send_headers close_stream
  call-IsSound (sends_headers metadata io) s sound =
      flush_headers-IsSound serving serving.response_compressor metadata io s (inr refl) sound
  call-IsSound (sends msg metadata io) s sound = send-IsSound serving msg metadata io s sound
  call-IsSound (closes metadata io) s sound =
      let flushed = flush_headers serving none metadata io s in
      close_step-IsSound serving io flushed.0 flushed.1
        (flush_headers-IsSound serving none metadata io s (inl refl) sound)

  pub calls-IsSound_from :
      (cs : List Call) (s : ServerStream) → IsSound serving s → IsSound serving (calls cs s)
  calls-IsSound_from [] s sound = sound
  calls-IsSound_from (c ∷ cs) s sound = calls-IsSound_from cs (call c s) (call-IsSound c s sound)

  -- After any calls on a stream whose response has no Content-Encoding yet, whatever fails in them:
  -- either there is no head and no byte of a body, or there is a head with status 200, and the
  -- body is compressed exactly when the head names the compressor of the response as its
  -- Content-Encoding; it has none otherwise, and no byte escapes the choice.
  pub calls-IsSound :
      (header : Header) (cs : List Call)
      → get content_encoding header ≡ none
      → IsSound serving (calls cs (fresh header))
  calls-IsSound header cs h =
      calls-IsSound_from cs (fresh header) (unwritten refl refl refl refl refl h)
