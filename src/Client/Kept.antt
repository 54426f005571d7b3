-- ===== src/Client/Kept.antt =====
-- The calls of Send, Receive and Close, and the end of the context, keep a stream sound.
use vanguard_go.Client.Answering.{closed_more}
use vanguard_go.Client.{Calling, ClientError, ClientStream, Connection}
use vanguard_go.Client.Calls.{close, expire}
use vanguard_go.Client.Sides.{IsSound, send-Kept}
use vanguard_go.Client.Sound.{Kept}
use vanguard_go.Client.Stream.{close_body, send}
use vanguard_go.Prelude.{Option, arith, inl, inr, true, ℕ, ◌≡◌}
use vanguard_go.Prelude.Branches.{if_holds, option_holds}

module _ {M C E : Type 0} (call : Calling M C E) where
  abbrev pub Stream : Type 0
  Stream = ClientStream C E

  pub finish-IsSound :
      (r : ℕ) (s : Stream)
      → IsSound call s
      → IsSound call (record (close_body r s) { received = true })
  finish-IsSound r s ((o, u, l, p), a) = (
    (
      o,
      u,
      λ b m. elim (l b m) [ inl k ↦ inl (closed_more r s.body_closes b k) | inr x ↦ inr x ],
      p,
    ),
    a,
  )

  pub send-IsSound :
      (io : Connection E) (msg : M) (s : Stream)
      → IsSound call s
      → IsSound call (send call io msg s).0
  unfolding send
  send-IsSound io msg s (c, a) =
      if_holds
        (λ (r : Stream × Option (ClientError E)). Kept call s.send_closed r → IsSound call r.0)
        s.send_closed (λ _ _. (c, a))
        (λ n k. (k.core, λ b. absurd (ground (arith, n, k.same_side, b))))
        (send-Kept call io msg s c)

  pub close-IsSound : (s : Stream) → IsSound call s → IsSound call (close call s)
  unfolding close
  close-IsSound s ((o, u, l, p), a) =
      option_holds (IsSound call) s.raw_body
        (λ n. (
          (
            o,
            u,
            λ b m. elim (l b m) [ inl k ↦ inl k | inr (_, w) ↦ absurd (ground (arith, n, w)) ],
            p,
          ),
          a,
        ))
        (λ r n. (
          (
            o,
            u,
            λ b m. elim (l b m) [
              | inl k ↦ inl (closed_more r s.body_closes b k)
              | inr (_, w) ↦ let e : r ≡ b = ground (arith, n, w) in inl (ground (arith, e))
            ],
            p,
          ),
          a,
        ))

  pub expire-IsSound : (e : E) (s : Stream) → IsSound call s → IsSound call (expire call e s)
  unfolding expire
  expire-IsSound e s h = option_holds (IsSound call) s.context (λ _. h) (λ _ _. h)
