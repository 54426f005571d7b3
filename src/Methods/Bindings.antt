-- ===== src/Methods/Bindings.antt =====
-- The routes that the bindings of a rule leave in the trie.
use vanguard_go.Fields.Descriptors.{Reflection}
use vanguard_go.Methods.{HttpRule, Routes, add_binding, add_bindings, attach, check_target}
use vanguard_go.Prelude.{
  All, All-imp, Bool, Bool-cases, Bytes, List, Option, Option-cases, Result-cases, [], ap, arith,
  false, inl, inr, none, ok, ok-injective, some, sym, true, ◌∙◌, ◌∷◌, ◌≡◌,
}
use vanguard_go.Route.Target.{Binding, RouteTarget, RpcMethod, add_route}
use vanguard_go.Route.Target.Added.{Adds, FromRule, RouteAdded, add_route-RouteAdded}
use vanguard_go.Route.Templates.{verb_text}
use vanguard_go.Route.Trie.Insert.{route_at, route_at-same_route, same_route}
use vanguard_go.Template.{PathVariable}
use vanguard_go.Template.Canonical.{IsTemplate}

some-none : {A : Type 0} {x : A} → ◌≡◌ {A = Option A} (some x) none → ⊥
some-none h = cc

module _ (r : Reflection) where
  -- Every route of the first trie is one of the second.
  pub record Grows (t t' : Routes r) : Type 0 where
    pub kept :
        (ss : List Bytes) (v m : Bytes) (x : RouteTarget r)
        → route_at ss v m t ≡ some x
        → route_at ss v m t' ≡ some x

  pub Grows-refl : (t : Routes r) → Grows t t
  Grows-refl t = record { kept = λ ss v m x h. h }

  pub Grows-trans : {t u v : Routes r} → Grows t u → Grows u v → Grows t v
  Grows-trans g k = record { kept = λ ss v m x h. k.kept ss v m x (g.kept ss v m x h) }

  -- The trie holds a target made from the binding for the method, under its canonical template
  -- and its HTTP method; if the check is strict, REST can carry its stream.
  pub record Held (strict : Bool) (method : RpcMethod r) (binding : Binding) (t : Routes r)
      : Type 0 where
    pub http_method : Bytes
    pub target : RouteTarget r
    pub from_rule : FromRule r method binding http_method target
    pub vars : List PathVariable
    pub canonical : IsTemplate target.template vars
    pub held : route_at canonical.segments (verb_text canonical.verb) http_method t ≡ some target
    pub carried : strict ≡ true → target.unsupported ≡ none

  pub Held-Grows :
      {strict : Bool} {method : RpcMethod r} {binding : Binding} {t t' : Routes r}
      → Grows t t'
      → Held strict method binding t
      → Held strict method binding t'
  Held-Grows g h = record {
    http_method = h.http_method;
    target = h.target;
    from_rule = h.from_rule;
    vars = h.vars;
    canonical = h.canonical;
    held = g.kept h.canonical.segments (verb_text h.canonical.verb) h.http_method h.target h.held;
    carried = h.carried;
  }

  Adds-Grows :
      {http_method : Bytes} {target : RouteTarget r} {t t' : Routes r}
      → Adds r http_method target t t'
      → Grows t t'
  Adds-Grows {http_method} {target} {t} {t'} a = record {
    kept = λ ss v m x h.
        let cs = a.canonical.segments in
        let cv = verb_text a.canonical.verb in
        elim (Bool-cases (same_route cs cv http_method ss v m)) [
          | inl same ↦
              let e = route_at-same_route cs ss cv http_method v m t same in
              absurd (some-none (sym h ∙ sym e ∙ a.was_free))
          | inr other ↦ a.others ss v m other ∙ h
        ];
  }

  Held-of_RouteAdded :
      {method : RpcMethod r} {binding : Binding} {target : RouteTarget r} {t t' : Routes r}
      (strict : Bool)
      → (strict ≡ true → target.unsupported ≡ none)
      → RouteAdded r method binding target t t'
      → Held strict method binding t'
  Held-of_RouteAdded {target} strict carried a = record {
    http_method = a.http_method;
    target = target;
    from_rule = a.from_rule;
    vars = a.adds.vars;
    canonical = a.adds.canonical;
    held = a.adds.held;
    carried = carried;
  }

  check_target_ok :
      (strict : Bool) (routes routes' : Routes r) (made target : RouteTarget r)
      → check_target r strict routes made ≡ ok (routes', target)
      → (routes ≡ routes') × (made ≡ target) × (strict ≡ true → made.unsupported ≡ none)
  unfolding check_target
  check_target_ok false routes routes' made target h =
      (ground arith, ground arith, λ e. absurd (ground arith))
  check_target_ok true routes routes' made target h = elim (Option-cases made.unsupported) [
    | inl e ↦ (ground arith, ground arith, λ _. e)
    | inr (reason, e) ↦ absurd (ground arith)
  ]

  add_binding-Held :
      (strict : Bool) (method : RpcMethod r) (binding : Binding) (t t' : Routes r)
      (target : RouteTarget r)
      → add_binding r strict method binding t ≡ ok (t', target)
      → Held strict method binding t' × Grows t t'
  unfolding add_binding
  add_binding-Held strict method binding t t' target h =
      elim (Result-cases (add_route r method binding t).1) [
        | inr (e, d) ↦ absurd (ground arith)
        | inl (made, d) ↦
            let (same, kept, carried) =
              check_target_ok strict (add_route r method binding t).0 t' made target
                (ground arith) in
            let a =
              add_route-RouteAdded r method binding made t (add_route r method binding t).0
                (ap (λ x. ((add_route r method binding t).0, x)) d) in
            rw (← same) (Held-of_RouteAdded strict carried a, Adds-Grows a.adds)
      ]

  add_bindings-Held :
      (strict : Bool) (label : Bytes) (method : RpcMethod r) (extras : List Binding)
      (t t' : Routes r)
      → add_bindings r strict label method extras t ≡ ok t'
      → All (λ b. Held strict method b t') extras × Grows t t'
  unfolding add_bindings
  add_bindings-Held strict label method [] t t' h = rw (ok-injective h) (tt, Grows-refl t')
  add_bindings-Held strict label method (extra ∷ extras) t t' h =
      elim (Result-cases (add_binding r strict method extra t)) [
        | inr (e, d) ↦ absurd (ground arith)
        | inl ((u, target), d) ↦
            let (here, grows) = add_binding-Held strict method extra t u target d in
            let (later, grows') =
              add_bindings-Held strict label method extras u t' (ground arith) in
            ((Held-Grows grows' here, later), Grows-trans grows grows')
      ]

  -- All bindings of a rule.
  abbrev pub RuleHeld : Bool → RpcMethod r → HttpRule → Routes r → Type 0
  RuleHeld strict method rule t =
      Held strict method rule.primary t × All (λ b. Held strict method b t) rule.additional_bindings

  pub RuleHeld-Grows :
      (strict : Bool) (method : RpcMethod r) (rule : HttpRule) {t t' : Routes r}
      → Grows t t'
      → RuleHeld strict method rule t
      → RuleHeld strict method rule t'
  RuleHeld-Grows strict method rule {t} {t'} g (p, bs) = (
    Held-Grows g p,
    All-imp (λ b. Held strict method b t) (λ b. Held strict method b t') rule.additional_bindings
        (λ b h. Held-Grows g h) bs,
  )

  pub attach-RuleHeld :
      (strict : Bool) (label : Bytes) (method : RpcMethod r) (rule : HttpRule) (t t' : Routes r)
      (target : RouteTarget r)
      → attach r strict label method rule t ≡ ok (t', target)
      → RuleHeld strict method rule t' × Grows t t'
  unfolding attach
  attach-RuleHeld strict label method rule t t' target h =
      elim (Result-cases (add_binding r strict method rule.primary t)) [
        | inr (e, d) ↦ absurd (ground arith)
        | inl ((u, made), d) ↦
            let (here, grows) = add_binding-Held strict method rule.primary t u made d in
            elim (Result-cases (add_bindings r strict label method rule.additional_bindings u)) [
              | inr (e, k) ↦ absurd (ground arith)
              | inl (v, k) ↦
                  let same : v ≡ t' = ground arith in
                  let (later, grows') =
                    add_bindings-Held strict label method rule.additional_bindings u v k in
                  rw (← same) ((Held-Grows grows' here, later), Grows-trans grows grows')
            ]
      ]
