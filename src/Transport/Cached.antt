-- ===== src/Transport/Cached.antt =====
-- Calls of `resolveMethod` that race on a transport, against calls without its cache.
use vanguard_go.Fields.Descriptors.{Reflection}
use vanguard_go.Methods.{HttpRule}
use vanguard_go.Methods.Specs.{Method, Spec, SpecLibrary}
use vanguard_go.Prelude.{
  All, Bool-cases, Bytes, List, Option, Option-cases, Result, Result-cases, [], ap, arith, bytes_eq,
  bytes_eq_iff, inl, inr, length, ok, refl, some, sym, ℕ, ◌+◌, ◌∙◌, ◌∷◌, ◌≡◌,
}
use vanguard_go.Prelude.Map.{Map, get, get-put}
use vanguard_go.Route.Target.{RpcMethod}
use vanguard_go.Transport.{Config, MethodError, Platform, Transport, load_or_store, resolve_fresh}
use vanguard_go.Transport.Races.{
  Event, OneSpec, Racing, begin, begin_call, begun, finish, finish_call, idle, race, take_at,
  take_at-All, take_at-length,
}

module _ (r : Reflection) (lib : SpecLibrary r) (p : Platform (SpecLibrary.Resolver lib))
    (extension : RpcMethod r → Option HttpRule) where
  open lib use {Schema}

  module _ (options : Config r lib p) (spec_of : Bytes → Spec Schema) where
    abbrev fresh : Spec Schema → Result (MethodError r lib p) (Method r lib)
    fresh spec = resolve_fresh r lib p extension options spec

    abbrev Stored : Map (Method r lib) → Type 0
    Stored methods =
        (procedure : Bytes) (method : Method r lib)
        → get procedure methods ≡ some method
        → fresh (spec_of procedure) ≡ ok method

    abbrev Waits : Spec Schema × Method r lib → Type 0
    Waits call = (call.0 ≡ spec_of (Spec.procedure call.0)) × (fresh call.0 ≡ ok call.1)

    abbrev Returns : Spec Schema × Result (MethodError r lib p) (Method r lib) → Type 0
    Returns call = call.1 ≡ fresh call.0

    record Sound (s : Racing r lib p extension) : Type 0 where
      configured : s.transport.options ≡ options
      stored : Stored s.transport.methods
      waits : All Waits s.pending
      returns : All Returns s.returned

    load_or_store-Stored :
        (spec : Spec Schema) (method : Method r lib) (methods : Map (Method r lib))
        → Waits (spec, method)
        → Stored methods
        → Stored (load_or_store r lib p extension spec.procedure method methods)
    unfolding load_or_store
    load_or_store-Stored spec method methods (same, e) h =
        elim (Option-cases (get spec.procedure methods)) [
          | inr (kept, d) ↦ rw (load_or_store, d) h
          | inl d ↦
              rw (load_or_store, d)
                (λ procedure found f.
                  let g = sym (get-put spec.procedure procedure method methods) ∙ f in
                  elim (Bool-cases (bytes_eq spec.procedure procedure)) [
                    | inr other ↦ h procedure found (ground arith)
                    | inl is ↦
                        let k : spec.procedure ≡ procedure =
                          (bytes_eq_iff spec.procedure procedure).0 is in
                        let x : method ≡ found = ground arith in
                        ap fresh (sym (same ∙ ap spec_of k)) ∙ e ∙ ap (λ m. ok m) x
                  ])
        ]

    begin_call-Sound :
        (spec : Spec Schema) (s : Racing r lib p extension)
        → spec ≡ spec_of spec.procedure
        → Sound s
        → Sound (begin_call r lib p extension spec s)
    unfolding begin_call
    begin_call-Sound spec s same k = elim (Option-cases (get spec.procedure s.transport.methods)) [
      | inr (cached, e) ↦
          rw (begin_call, e)
            (record {
              configured = k.configured;
              stored = k.stored;
              waits = k.waits;
              returns = (sym (ap fresh same ∙ k.stored spec.procedure cached e), k.returns);
            })
      | inl e ↦
          let at = ap (λ o. resolve_fresh r lib p extension o spec) k.configured in
          elim (Result-cases (fresh spec)) [
            | inr (x, d) ↦
                rw (begin_call, e, at ∙ d)
                  (record {
                    configured = k.configured;
                    stored = k.stored;
                    waits = k.waits;
                    returns = (sym d, k.returns);
                  })
            | inl (method, d) ↦
                rw (begin_call, e, at ∙ d)
                  (record {
                    configured = k.configured;
                    stored = k.stored;
                    waits = ((same, d), k.waits);
                    returns = k.returns;
                  })
          ]
    ]

    finish_call-Sound :
        (n : ℕ) (s : Racing r lib p extension) → Sound s → Sound (finish_call r lib p extension n s)
    unfolding finish_call
    finish_call-Sound n s k = elim (Option-cases (take_at n s.pending)) [
      | inl e ↦ rw (finish_call, e) k
      | inr (((spec, method), pending), e) ↦
          let (wait, waits) = take_at-All Waits n s.pending (spec, method) pending e k.waits in
          rw (finish_call, e)
            (record {
              configured = k.configured;
              stored = load_or_store-Stored spec method s.transport.methods wait k.stored;
              waits = waits;
              returns = (sym wait.1, k.returns);
            })
    ]

    race-Sound :
        (events : List (Event Schema)) (s : Racing r lib p extension)
        → All (OneSpec spec_of) events
        → Sound s
        → Sound (race r lib p extension events s)
    race-Sound [] s h k = k
    race-Sound (begin spec ∷ events) s (same, h) k =
        race-Sound events _ h (begin_call-Sound spec s same k)
    race-Sound (finish n ∷ events) s (_, h) k = race-Sound events _ h (finish_call-Sound n s k)

  abbrev calls : Racing r lib p extension → ℕ
  calls s = length s.returned + length s.pending

  begin_call-calls :
      (spec : Spec Schema) (s : Racing r lib p extension)
      → calls (begin_call r lib p extension spec s) ≡ 1 + calls s
  unfolding begin_call
  begin_call-calls spec s = ground arith

  finish_call-calls :
      (n : ℕ) (s : Racing r lib p extension) → calls (finish_call r lib p extension n s) ≡ calls s
  unfolding finish_call
  finish_call-calls n s = elim (Option-cases (take_at n s.pending)) [
    | inl e ↦ ground arith
    | inr ((call, pending), e) ↦ ground (arith, e, take_at-length n s.pending call pending e)
  ]

  race-calls :
      (events : List (Event Schema)) (s : Racing r lib p extension)
      → calls (race r lib p extension events s) ≡ begun events + calls s
  race-calls [] s = omega arith
  race-calls (begin spec ∷ events) s =
      ground
        (arith, race-calls events (begin_call r lib p extension spec s), begin_call-calls spec s)
  race-calls (finish n ∷ events) s =
      race-calls events (finish_call r lib p extension n s)
      ∙ ap (λ k. begun events + k) (finish_call-calls n s)

  -- Each call has returned what it would return without the cache, or is under way.
  pub record Transparent (t : Transport r lib p) (events : List (Event Schema))
      (s : Racing r lib p extension) : Type 0 where
    pub fresh_results :
        All (λ call. call.1 ≡ resolve_fresh r lib p extension t.options call.0) s.returned
    pub all_counted : length s.returned + length s.pending ≡ begun events

  -- When calls race on a transport whose cache is empty, and one procedure always comes with the
  -- same spec: however the calls interleave, each that has returned gave what the resolution of
  -- its spec gives without a cache, an error or a method. None is lost: the calls that have
  -- returned and those under way are as many as have begun.
  pub race-Transparent :
      (spec_of : Bytes → Spec Schema) (events : List (Event Schema)) (t : Transport r lib p)
      → All (OneSpec spec_of) events
      → t.methods ≡ []
      → Transparent t events (race r lib p extension events (idle r lib p extension t))
  race-Transparent spec_of events t h e =
      let sound = race-Sound t.options spec_of events (idle r lib p extension t) h (record {
        configured = refl;
        stored = λ procedure method f. absurd (ground arith);
        waits = tt;
        returns = tt;
      }) in
      record {
        fresh_results = sound.returns;
        all_counted = race-calls events (idle r lib p extension t) ∙ ground arith;
      }
