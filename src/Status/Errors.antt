-- ===== src/Status/Errors.antt =====
-- The classification of errors: what is passed on of a peer's verdict.
use vanguard_go.Prelude.{
  Bool-cases, Option-cases, [], arith, false, inl, inr, none, refl, some, sym, true, ◌∙◌, ◌≡◌, ◌⊎◌,
}
use vanguard_go.Status.{ConnectError, ErrorChain, as_connect_error, context_error, new_error}

module _ {E : Type 0} (chain : ErrorChain E) where
  -- What an error of a handler becomes: it is not a peer's, and one that stands for a peer's has
  -- neither its code, its message nor its details, only itself as the cause.
  pub record Classified (e : E) (cerr : ConnectError E) : Type 0 where
    pub local : cerr.is_remote ≡ false
    pub own : (c : ConnectError E) → chain.as_type e ≡ some c → c.is_remote ≡ false → cerr ≡ c
    pub hidden :
        (c : ConnectError E)
        → chain.as_type e ≡ some c
        → c.is_remote ≡ true
        → cerr ≡ record { code = 13; message = []; details = []; is_remote = false; cause = some e }
    pub uncoded :
        chain.as_type e ≡ none
        → (cerr.details ≡ [])
          × (cerr.cause ≡ some e)
          × ((cerr.code ≡ 1) ⊎ (cerr.code ≡ 2) ⊎ (cerr.code ≡ 4))

  some-same : {c d : ConnectError E} → some c ≡ some d → c ≡ d
  some-same h = cc

  uncoded_lem :
      (e : E)
      → chain.as_type e ≡ none
      → ((as_connect_error chain e).is_remote ≡ false)
        × ((as_connect_error chain e).details ≡ [])
        × ((as_connect_error chain e).cause ≡ some e)
        × (((as_connect_error chain e).code ≡ 1)
            ⊎ ((as_connect_error chain e).code ≡ 2)
            ⊎ ((as_connect_error chain e).code ≡ 4))
  unfolding as_connect_error
  uncoded_lem e h = elim (Bool-cases (chain.deadline e)) [
    | inl late ↦ elim (Bool-cases (chain.canceled e)) [
      | inl both ↦
          rw (h, late, both, as_connect_error, context_error, new_error)
            (refl, refl, refl, inr (inr refl))
      | inr only ↦
          rw (h, late, only, as_connect_error, context_error, new_error)
            (refl, refl, refl, inr (inr refl))
    ]
    | inr early ↦ elim (Bool-cases (chain.canceled e)) [
      | inl stopped ↦
          rw (h, early, stopped, as_connect_error, context_error, new_error)
            (refl, refl, refl, inl refl)
      | inr other ↦
          rw (h, early, other, as_connect_error, new_error) (refl, refl, refl, inr (inl refl))
    ]
  ]

  -- The error that a handler's error is reported as is never a peer's. An error with a code stays
  -- as it is unless a peer has sent it: of that one only Internal is reported. Any other error
  -- becomes Canceled, Unknown or DeadlineExceeded, without details, and with itself as the cause.
  pub as_connect_error-Classified : (e : E) → Classified e (as_connect_error chain e)
  unfolding as_connect_error context_error new_error
  as_connect_error-Classified e = elim (Option-cases (chain.as_type e)) [
    | inl h ↦
        let (local, bare, caused, coded) = uncoded_lem e h in
        record {
          local = local;
          own = λ c k _. absurd (ground (arith, h, k));
          hidden = λ c k _. absurd (ground (arith, h, k));
          uncoded = λ _. (bare, caused, coded);
        }
    | inr (d, h) ↦ elim (Bool-cases d.is_remote) [
      | inl remote ↦
          rw (h, remote, as_connect_error)
            (record {
              local = refl;
              own = λ c k local. absurd (ground (arith, some-same (sym h ∙ k), local, remote));
              hidden = λ c k _. refl;
              uncoded = λ k. absurd (ground (arith, h, k));
            })
      | inr local ↦
          let same : as_connect_error chain e ≡ d = ground (arith, h, local) in
          rw same (record {
            local = local;
            own = λ c k _. some-same (sym h ∙ k);
            hidden = λ c k remote. absurd (ground (arith, some-same (sym h ∙ k), local, remote));
            uncoded = λ k. absurd (ground (arith, h, k));
          })
    ]
  ]
