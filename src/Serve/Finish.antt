-- ===== src/Serve/Finish.antt =====
-- The end of an exchange: one head at most.
use vanguard_go.Fields.Descriptors.{Reflection}
use vanguard_go.Prelude.{List, [], none, true, ◌∷◌, ◌≡◌, ◌⊎◌}
use vanguard_go.Serve.{Ending, RestHandler, aborted, finished, replied}
use vanguard_go.Server.{ServerStream, Serving}
use vanguard_go.Server.Sending.{Call, sends, sends_headers, closes}
use vanguard_go.Server.Sound.{IsSound}
use vanguard_go.Status.{Reply}

module _ (r : Reflection) {C E M F : Type 0} (h : RestHandler r C E) (serving : Serving M F) where
  -- A message was given to Send, which may have failed.
  abbrev pub HasSent : List (Call serving) → Type 0
  HasSent [] = ⊥
  HasSent (sends msg metadata io ∷ cs) = Unit
  HasSent (sends_headers metadata io ∷ cs) = HasSent cs
  HasSent (closes metadata io ∷ cs) = HasSent cs

  -- An ending of the exchange on a stream.
  pub data Ends (cs : List (Call serving)) (s : ServerStream) : Ending r h → Type 0 where
    well :
        {s' : ServerStream}
        → HasSent cs ⊎ (serving.streaming ≡ true)
        → IsSound serving s'
        → Ends cs s (finished s')
    late : s.headers_set ≡ true → Ends cs s (aborted s)
    early :
        {reply : Reply} → s.head ≡ none → s.plain ≡ [] → s.packed ≡ [] → Ends cs s (replied reply)
