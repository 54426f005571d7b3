-- ===== src/Transport/Races.antt =====
-- vanguard.go, calls of `resolveMethod` that race on one transport: a call runs up to its
-- `LoadOrStore`, and stores and returns later, in any order.
use vanguard_go.Fields.Descriptors.{Reflection}
use vanguard_go.Methods.{HttpRule}
use vanguard_go.Methods.Specs.{Method, Spec, SpecLibrary}
use vanguard_go.Prelude.{
  All, Bytes, List, Option, Option-cases, Result, Result-cases, [], arith, err, inl, inr, length,
  none, ok, some, subst, suc, zero, ℕ, ◌+◌, ◌∷◌, ◌≡◌,
}
use vanguard_go.Prelude.Map.{get}
use vanguard_go.Route.Target.{RpcMethod}
use vanguard_go.Transport.{
  MethodError, Platform, Transport, load_or_store, resolve_fresh, resolve_method,
}

-- A call begins, or the call at a place among those under way finishes.
pub data Event (S : Type 0) : Type 0 where
  begin : Spec S → Event S
  finish : ℕ → Event S

abbrev pub begun : {S : Type 0} → List (Event S) → ℕ
begun [] = 0
begun (begin spec ∷ events) = 1 + begun events
begun (finish n ∷ events) = begun events

-- Each call is of the spec that its procedure has.
abbrev pub OneSpec : {S : Type 0} → (Bytes → Spec S) → Event S → Type 0
OneSpec spec_of (begin spec) = spec ≡ spec_of spec.procedure
OneSpec spec_of (finish n) = Unit

abbrev pub take_at : {A : Type 0} → ℕ → List A → Option (A × List A)
take_at n [] = none
take_at zero (x ∷ xs) = some (x, xs)
take_at (suc n) (x ∷ xs) = elim (take_at n xs) [ none ↦ none | some (y, ys) ↦ some (y, x ∷ ys) ]

pub take_at-All :
    {A : Type 0} (P : A → Type 0) (n : ℕ) (xs : List A) (y : A) (ys : List A)
    → take_at n xs ≡ some (y, ys)
    → All P xs
    → P y × All P ys
take_at-All P n [] y ys h a = absurd (ground arith)
take_at-All P zero (x ∷ xs) y ys h (px, a) =
    let e : x ≡ y = ground arith in
    let d : xs ≡ ys = ground arith in (subst P e px, subst (All P) d a)
take_at-All P (suc n) (x ∷ xs) y ys h (px, a) = elim (Option-cases (take_at n xs)) [
  | inl e ↦ absurd (ground arith)
  | inr ((z, zs), e) ↦
      let d : z ≡ y = ground arith in
      let c : x ∷ zs ≡ ys = ground arith in
      let (pz, b) = take_at-All P n xs z zs e a in (subst P d pz, subst (All P) c (px, b))
]

pub take_at-length :
    {A : Type 0} (n : ℕ) (xs : List A) (y : A) (ys : List A)
    → take_at n xs ≡ some (y, ys)
    → length xs ≡ 1 + length ys
take_at-length n [] y ys h = absurd (ground arith)
take_at-length zero (x ∷ xs) y ys h = ground arith
take_at-length (suc n) (x ∷ xs) y ys h = elim (Option-cases (take_at n xs)) [
  | inl e ↦ absurd (ground arith)
  | inr ((z, zs), e) ↦ ground (arith, take_at-length n xs z zs e)
]

module _ (r : Reflection) (lib : SpecLibrary r) (p : Platform (SpecLibrary.Resolver lib))
    (extension : RpcMethod r → Option HttpRule) where
  open lib use {Schema}

  -- The calls under way, each with its method, and those that have returned, with their results.
  pub record Racing : Type 0 where
    pub transport : Transport r lib p
    pub pending : List (Spec Schema × Method r lib)
    pub returned : List (Spec Schema × Result (MethodError r lib p) (Method r lib))

  -- `resolveMethod` up to its `LoadOrStore`
  unfoldable pub begin_call : Spec Schema → Racing → Racing
  begin_call spec s = elim (get spec.procedure s.transport.methods) [
    | some cached ↦ record s { returned = (spec, ok cached) ∷ s.returned }
    | none ↦ elim (resolve_fresh r lib p extension s.transport.options spec) [
      | err e ↦ record s { returned = (spec, err e) ∷ s.returned }
      | ok method ↦ record s { pending = (spec, method) ∷ s.pending }
    ]
  ]

  -- `resolveMethod` from its `LoadOrStore` on
  unfoldable pub finish_call : ℕ → Racing → Racing
  finish_call n s = elim (take_at n s.pending) [
    | none ↦ s
    | some ((spec, method), pending) ↦ record {
      transport = record (s.transport) {
        methods = load_or_store r lib p extension spec.procedure method s.transport.methods;
      };
      pending = pending;
      returned = (spec, ok method) ∷ s.returned;
    }
  ]

  abbrev pub race : List (Event Schema) → Racing → Racing
  race [] s = s
  race (begin spec ∷ events) s = race events (begin_call spec s)
  race (finish n ∷ events) s = race events (finish_call n s)

  abbrev pub idle : Transport r lib p → Racing
  idle t = record { transport = t; pending = []; returned = [] }

  -- A call alone is `resolve_method`.
  resolve_method-begin_call :
      (spec : Spec Schema) (t : Transport r lib p)
      → let s = finish_call 0 (begin_call spec (idle t)) in
        (s.transport ≡ (resolve_method r lib p extension spec t).0)
        × (s.returned ≡ (spec, (resolve_method r lib p extension spec t).1) ∷ [])
  unfolding begin_call finish_call resolve_method
  resolve_method-begin_call spec t = elim (Option-cases (get spec.procedure t.methods)) [
    | inr (cached, e) ↦ (ground (arith, e), ground (arith, e))
    | inl e ↦ elim (Result-cases (resolve_fresh r lib p extension t.options spec)) [
      | inr (x, d) ↦ (ground (arith, e, d), ground (arith, e, d))
      | inl (m, d) ↦ (ground (arith, e, d), ground (arith, e, d))
    ]
  ]
