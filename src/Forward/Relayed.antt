-- ===== src/Forward/Relayed.antt =====
-- What a proxy relays.
use vanguard_go.Forward.{
  Loop, RequestRound, Upstream, forward_requests, forwarded, request, requests_end, requests_fail,
  returned, running, untouched,
}
use vanguard_go.Prelude.{
  Bool, List, [], ap, append-nil, append_assoc, arith, false, none, refl, some, sym, true, ◌++◌,
  ◌∙◌, ◌∷◌, ◌≡◌, ◌≢◌,
}
use vanguard_go.Prelude.Branches.{if_holds}
use vanguard_go.Status.{ErrorChain}

module _ {M E : Type 0} (chain : ErrorChain E) (is_eof : E → Bool) where
  -- The messages that downstream gives up to its end.
  abbrev pub given : List (RequestRound M E) → List M
  given [] = []
  given (requests_end e ∷ rounds) = []
  given (requests_fail e ∷ rounds) = []
  given (request msg e ∷ rounds) = msg ∷ given rounds

  -- Messages are sent in order and none is left out; the sending side is closed only behind all of
  -- them, and a canceled call returns an error.
  pub record Relayed (before : List M) (rounds : List (RequestRound M E)) (r : Upstream M × Loop E)
      : Type 0 where
    pub relayed : List M
    pub unsent : List M
    pub sends : r.0.sent ≡ before ++ relayed
    pub in_order : relayed ++ unsent ≡ given rounds
    pub closes : r.0.half_closed ≡ true → unsent ≡ []
    pub cancels : r.0.canceled ≡ true → (r.0.half_closed ≡ false) × (r.1 ≢ returned none)

  stopped :
      (s : Upstream M) (rounds : List (RequestRound M E)) (l : Loop E)
      → s.half_closed ≡ false
      → s.canceled ≡ false
      → Relayed s.sent rounds (s, l)
  stopped s rounds l unclosed kept = record {
    relayed = [];
    unsent = given rounds;
    sends = sym (append-nil s.sent);
    in_order = refl;
    closes = λ h. absurd (ground (arith, h, unclosed));
    cancels = λ h. absurd (ground (arith, h, kept));
  }

  Relayed-from :
      (rounds : List (RequestRound M E)) (s : Upstream M)
      → s.half_closed ≡ false
      → s.canceled ≡ false
      → Relayed s.sent rounds (forward_requests chain is_eof rounds s)
  unfolding forward_requests
  Relayed-from [] s unclosed kept = stopped s [] running unclosed kept
  Relayed-from (requests_end e ∷ rounds) s unclosed kept = record {
    relayed = [];
    unsent = [];
    sends = sym (append-nil s.sent);
    in_order = refl;
    closes = λ _. refl;
    cancels = λ h. absurd (ground (arith, h, kept));
  }
  Relayed-from (requests_fail e ∷ rounds) s unclosed kept = record {
    relayed = [];
    unsent = [];
    sends = sym (append-nil s.sent);
    in_order = refl;
    closes = λ _. refl;
    cancels = λ _. (unclosed, λ h. cc);
  }
  Relayed-from (request msg none ∷ rounds) s unclosed kept =
      let x = Relayed-from rounds (record s { sent = s.sent ++ (msg ∷ []) }) unclosed kept in
      record {
        relayed = msg ∷ x.relayed;
        unsent = x.unsent;
        sends = x.sends ∙ append_assoc s.sent (msg ∷ []) x.relayed;
        in_order = ap (λ ms. msg ∷ ms) x.in_order;
        closes = x.closes;
        cancels = x.cancels;
      }
  Relayed-from (request msg (some e) ∷ rounds) s unclosed kept =
      if_holds (Relayed s.sent (request msg (some e) ∷ rounds)) (is_eof e)
        (λ _. stopped s (request msg (some e) ∷ rounds) (returned none) unclosed kept)
        (λ _.
          stopped s (request msg (some e) ∷ rounds) (returned (forwarded chain (some e))) unclosed
            kept)

  -- Whatever the streams give in the rounds of `forwardRequests`: the messages sent upstream are
  -- the first of those that downstream gives, in their order; upstream's sending side is closed
  -- only when all of them are sent; and when the upstream call is canceled, its sending side is not
  -- closed and the loop has returned an error.
  pub forward_requests-Relayed :
      (rounds : List (RequestRound M E))
      → Relayed [] rounds (forward_requests chain is_eof rounds untouched)
  forward_requests-Relayed rounds = Relayed-from rounds untouched refl refl
