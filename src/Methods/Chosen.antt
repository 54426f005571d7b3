-- ===== src/Methods/Chosen.antt =====
-- Which rule makes the primary route of a method: for a server in `resolveMethods`, and as an
-- independent choice among the rules, which `resolveMethod` of a transport makes.
use vanguard_go.Fields.Descriptors.{Reflection}
use vanguard_go.Methods.{
  HttpRule, Routes, add_binding, add_bindings, attach, check_target, procedure_from_selector,
}
use vanguard_go.Prelude.{
  Bool, Bytes, List, Option, Option-cases, Result-cases, [], ap, arith, bytes_eq, bytes_eq_iff,
  false, if◌then◌else◌, inl, inr, none, ok, some, true, ◌∙◌, ◌∷◌, ◌≡◌,
}
use vanguard_go.Route.Target.{RouteTarget, RpcMethod, add_route, insert_route, rule_target, Binding}
use vanguard_go.Route.Trie.{insert}

-- The loop over the rules of the options.
unfoldable pub find_external : Bytes → List HttpRule → Option HttpRule
find_external procedure [] = none
find_external procedure (rule ∷ rules) =
    let later = find_external procedure rules in
    elim (procedure_from_selector rule.selector) [
      | none ↦ later
      | some p ↦ if bytes_eq p procedure then some rule else later
    ]

module _ (r : Reflection) where
  unfoldable pub choose_rule :
      (RpcMethod r → Option HttpRule) → List HttpRule → RpcMethod r → Option HttpRule
  choose_rule extension rules method = elim (extension method) [
    | some rule ↦ some rule
    | none ↦ find_external method.procedure rules
  ]

  -- The primary binding of the rule gives the target.
  pub record MadeOf (method : RpcMethod r) (rule : HttpRule) (target : RouteTarget r) : Type 0 where
    pub http_method : Bytes
    pub made : rule_target r method rule.primary ≡ ok (http_method, target)

  -- A method has the target of a rule if there is a rule, and none else.
  abbrev pub Primary : RpcMethod r → Option HttpRule → Option (RouteTarget r) → Type 0
  Primary method none found = found ≡ none
  Primary method (some rule) found =
      (target : RouteTarget r) × (found ≡ some target) × MadeOf method rule target

  insert_route-target :
      (http_method : Bytes) (made target : RouteTarget r) (t t' : Routes r)
      → insert_route r http_method made t ≡ (t', ok target)
      → made ≡ target
  unfolding insert_route
  insert_route-target http_method made target t t' h =
      elim (Option-cases (insert http_method made.template made t).1) [
        | inl e ↦ ground arith
        | inr (other, e) ↦ absurd (ground arith)
      ]

  add_route-made :
      (method : RpcMethod r) (binding : Binding) (target : RouteTarget r) (t t' : Routes r)
      → add_route r method binding t ≡ (t', ok target)
      → (http_method : Bytes) × (rule_target r method binding ≡ ok (http_method, target))
  unfolding add_route
  add_route-made method binding target t t' h = elim (Result-cases (rule_target r method binding)) [
    | inr (x, e) ↦ absurd (ground arith)
    | inl ((http_method, made), e) ↦
        let same = insert_route-target http_method made target t t' (ground arith) in
        (http_method, e ∙ ap (λ x. ok (http_method, x)) same)
  ]

  check_target-target :
      (strict : Bool) (routes routes' : Routes r) (made target : RouteTarget r)
      → check_target r strict routes made ≡ ok (routes', target)
      → made ≡ target
  unfolding check_target
  check_target-target false routes routes' made target h = ground arith
  check_target-target true routes routes' made target h = elim (Option-cases made.unsupported) [
    | inl e ↦ ground arith
    | inr (reason, e) ↦ absurd (ground arith)
  ]

  pub attach-MadeOf :
      (strict : Bool) (label : Bytes) (method : RpcMethod r) (rule : HttpRule) (t t' : Routes r)
      (target : RouteTarget r)
      → attach r strict label method rule t ≡ ok (t', target)
      → MadeOf method rule target
  unfolding attach add_binding
  attach-MadeOf strict label method rule t t' target h =
      elim (Result-cases (add_route r method rule.primary t).1) [
        | inr (e, d) ↦ absurd (ground arith)
        | inl (made, d) ↦
            let u = (add_route r method rule.primary t).0 in
            let (http_method, e) =
              add_route-made method rule.primary made t u (ap (λ x. (u, x)) d) in
            elim (Result-cases (check_target r strict u made)) [
              | inr (x, k) ↦ absurd (ground arith)
              | inl ((v, checked), k) ↦
                  let same = check_target-target strict u v made checked k in
                  elim (Result-cases
                    (add_bindings r strict label method rule.additional_bindings v)) [
                      | inr (x, l) ↦ absurd (ground arith)
                      | inl (w, l) ↦
                          let same' : checked ≡ target = ground arith in
                          record {
                            http_method = http_method;
                            made = e ∙ ap (λ x. ok (http_method, x)) (same ∙ same');
                          }
                    ]
            ]
      ]

  pub choose_rule-nil :
      (c : RpcMethod r → Option HttpRule) (m : RpcMethod r) → choose_rule c [] m ≡ c m
  unfolding choose_rule find_external
  choose_rule-nil c m = ground arith

  pub choose_rule-cons :
      (c : RpcMethod r → Option HttpRule) (rule : HttpRule) (rules : List HttpRule)
      (m : RpcMethod r)
      → choose_rule (choose_rule c (rule ∷ [])) rules m ≡ choose_rule c (rule ∷ rules) m
  unfolding choose_rule find_external
  choose_rule-cons c rule rules m = ground arith

  pub choose_rule-here :
      (c : RpcMethod r → Option HttpRule) (rule : HttpRule) (m : RpcMethod r)
      → c m ≡ none
      → procedure_from_selector rule.selector ≡ some m.procedure
      → choose_rule c (rule ∷ []) m ≡ some rule
  unfolding choose_rule find_external
  choose_rule-here c rule m h e = ground (arith, bytes_eq_iff m.procedure m.procedure)

  pub choose_rule-there :
      (c : RpcMethod r → Option HttpRule) (rule : HttpRule) (m : RpcMethod r) (p : Bytes)
      → procedure_from_selector rule.selector ≡ some p
      → bytes_eq p m.procedure ≡ false
      → choose_rule c (rule ∷ []) m ≡ c m
  unfolding choose_rule find_external
  choose_rule-there c rule m p e other = ground arith

  pub choose_rule-kept :
      (c : RpcMethod r → Option HttpRule) (rules : List HttpRule) (m : RpcMethod r) (x : HttpRule)
      → c m ≡ some x
      → choose_rule c rules m ≡ some x
  unfolding choose_rule
  choose_rule-kept c rules m x h = ground arith
