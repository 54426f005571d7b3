-- ===== src/Server/Once.antt =====
-- What happens once on the sending side: the head, and the message of a method that does not
-- stream.
use vanguard_go.Prelude.{not, refl, some, true, ◌&&◌, ◌≡◌}
use vanguard_go.Server.{Header, Io, ServerStream, Serving, send, sent_twice}

module _ {M E : Type 0} (serving : Serving M E) where
  -- The second stream has the head of the first, and both have one.
  record SameHead (s s' : ServerStream) : Type 0 where
    set : s'.headers_set ≡ true
    same : s'.head ≡ s.head

  pub send_again :
      (msg : M) (metadata : Header) (io : Io E) (s : ServerStream)
      → (s.sent && not serving.streaming) ≡ true
      → send serving msg metadata io s ≡ (s, some sent_twice)
  unfolding send
  send_again msg metadata io s twice = rw (twice, send) refl
