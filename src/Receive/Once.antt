-- ===== src/Receive/Once.antt =====
-- The receiving side delivers one message to a method whose client does not stream.
use vanguard_go.Prelude.{
  Bool-cases, length, ◌≤◌, List, Option-cases, Result, Result-cases, [], arith, err, false, inl,
  inr, ok, refl, subst, sym, true, ◌∷◌, ◌≡◌,
}
use vanguard_go.Receive.{
  Arrival, Decoding, ReceiveError, Receiver, eof, open_body, receive, receive_open,
}

-- A stream before any call.
abbrev pub unread : Receiver
unread = record { is_open = false; done = false }

module _ {M E : Type 0} (d : Decoding M E) where
  receive_done :
      (arrival : Arrival E) (msg : M) (s : Receiver)
      → s.done ≡ true
      → receive d arrival msg s ≡ (s, err eof)
  unfolding receive
  receive_done arrival msg s h = rw (h, receive) refl

  -- The receiving side is done, or no body was opened.
  Settled : Receiver → Type 0
  Settled s = s.is_open ≡ true → s.done ≡ true

  receive-Settled :
      (arrival : Arrival E) (msg : M) (s : Receiver)
      → d.client_streams ≡ false
      → Settled s
      → Settled (receive d arrival msg s).0
  unfolding receive receive_open Settled
  receive-Settled arrival msg s single settled = elim (Bool-cases s.done) [
    | inl h ↦ rw (h, receive) (λ _. refl)
    | inr h ↦ elim (Bool-cases s.is_open) [
      | inl o ↦ absurd (ground (arith, settled o, h))
      | inr o ↦ elim (Option-cases (open_body d arrival)) [
        | inr (e, k) ↦ rw (h, o, k, receive) (λ z. absurd (ground (arith, z)))
        | inl k ↦ rw (h, o, k, single, receive, receive_open) (λ _. refl)
      ]
    ]
  ]

  -- The results of calls, each with what the connection gives and the message to fill.
  abbrev pub receives : List (Arrival E × M) → Receiver → List (Result (ReceiveError E) M)
  receives [] s = []
  receives ((arrival, msg) ∷ calls) s =
      let (s', result) = receive d arrival msg s in result ∷ receives calls s'

  -- How many calls have got a message.
  abbrev pub delivered : List (Result (ReceiveError E) M) → List M
  delivered [] = []
  delivered (ok msg ∷ results) = msg ∷ delivered results
  delivered (err e ∷ results) = delivered results

  delivered-done :
      (calls : List (Arrival E × M)) (s : Receiver)
      → s.done ≡ true
      → delivered (receives calls s) ≡ []
  delivered-done [] s h = refl
  delivered-done ((arrival, msg) ∷ calls) s h =
      let e = receive_done arrival msg s h in
      subst (λ x. delivered (x.1 ∷ receives calls x.0) ≡ []) (sym e) (delivered-done calls s h)

  receive-done :
      (arrival : Arrival E) (msg filled : M) (s : Receiver)
      → d.client_streams ≡ false
      → Settled s
      → (receive d arrival msg s).1 ≡ ok filled
      → (receive d arrival msg s).0.done ≡ true
  unfolding receive receive_open Settled
  receive-done arrival msg filled s single settled got = elim (Bool-cases s.done) [
    | inl h ↦ absurd (ground (arith, h, got))
    | inr h ↦ elim (Bool-cases s.is_open) [
      | inl o ↦ absurd (ground (arith, settled o, h))
      | inr o ↦ elim (Option-cases (open_body d arrival)) [
        | inr (e, k) ↦ absurd (ground (arith, h, o, k, got))
        | inl k ↦ rw (h, o, k, single, receive, receive_open) refl
      ]
    ]
  ]

  delivered_from :
      (calls : List (Arrival E × M)) (s : Receiver)
      → d.client_streams ≡ false
      → Settled s
      → length (delivered (receives calls s)) ≤ 1
  delivered_from [] s single settled = omega arith
  delivered_from ((arrival, msg) ∷ calls) s single settled =
      let s' = (receive d arrival msg s).0 in
      elim (Result-cases (receive d arrival msg s).1) [
        | inr (e, k) ↦
            rw (k) (delivered_from calls s' single (receive-Settled arrival msg s single settled))
        | inl (filled, k) ↦
            rw (k, delivered-done calls s' (receive-done arrival msg filled s single settled k))
              (omega arith)
      ]

  -- When the method's client does not stream, at most one call of `Receive` on a stream gets a
  -- message, whatever the connection gives in each call.
  pub delivered-receives :
      (calls : List (Arrival E × M))
      → d.client_streams ≡ false
      → length (delivered (receives calls unread)) ≤ 1
  unfolding Settled
  delivered-receives calls single =
      delivered_from calls unread single (λ o. absurd (ground (arith, o)))
