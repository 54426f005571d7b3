-- ===== src/Methods/External.antt =====
-- The routes that the rules given as options leave in the trie.
use vanguard_go.Methods.Embedded.{SameMethods, first_rule-method, method_of, method_of-put}
use vanguard_go.Fields.Descriptors.{Reflection}
use vanguard_go.Methods.{
  HttpRule, Registered, Routes, attach, attach_external, find_selected, first_rule,
  procedure_from_selector,
}
use vanguard_go.Methods.Bindings.{
  Grows, Grows-refl, Grows-trans, RuleHeld, RuleHeld-Grows, attach-RuleHeld,
}
use vanguard_go.Methods.Selector.{Names, procedure_from_selector_iff}
use vanguard_go.Prelude.{
  All, Bool-cases, Bytes, List, Option-cases, [], ap, arith, subst, bind-ok, inl, inr, is_empty, ok,
  refl, some, true, ◌∙◌, ◌∷◌, ◌≡◌,
}
use vanguard_go.Prelude.Map.{Map, get, put}
use vanguard_go.Route.Target.{RpcMethod}

module _ (r : Reflection) where
  -- A rule from the options names the procedure of a registered method, and the routes hold all
  -- its bindings for that method, which REST can carry.
  pub record ExternalHeld (methods : Map (Registered r)) (t : Routes r) (rule : HttpRule)
      : Type 0 where
    pub procedure : Bytes
    pub names : Names rule.selector procedure
    pub method : RpcMethod r
    pub registered : method_of r procedure methods ≡ some method
    pub held : RuleHeld r true method rule t

  pub ExternalHeld-kept :
      (rules : List HttpRule) (methods methods' : Map (Registered r)) (t : Routes r)
      → SameMethods r methods methods'
      → All (ExternalHeld methods' t) rules
      → All (ExternalHeld methods t) rules
  ExternalHeld-kept [] methods methods' t same h = tt
  ExternalHeld-kept (rule ∷ rules) methods methods' t same (h, hs) = (
    record {
      procedure = h.procedure;
      names = h.names;
      method = h.method;
      registered = same h.procedure ∙ h.registered;
      held = h.held;
    },
    ExternalHeld-kept rules methods methods' t same hs,
  )

  pub find_selected_ok :
      (selector procedure : Bytes) (methods : Map (Registered r)) (entry : Registered r)
      → find_selected r selector methods ≡ ok (procedure, entry)
      → Names selector procedure × (get procedure methods ≡ some entry)
  unfolding find_selected
  find_selected_ok selector procedure methods entry h = elim (Bool-cases (is_empty selector)) [
    | inl e ↦ absurd (ground arith)
    | inr e ↦ elim (Option-cases (procedure_from_selector selector)) [
      | inl d ↦ absurd (ground arith)
      | inr (p, d) ↦ elim (Option-cases (get p methods)) [
        | inl g ↦ absurd (ground arith)
        | inr (x, g) ↦
            let same : p ≡ procedure = ground arith in
            let same' : x ≡ entry = ground arith in
            (
              (procedure_from_selector_iff selector procedure).0 (d ∙ ap (λ q. some q) same),
              subst (λ q. get q methods ≡ some entry) same (g ∙ ap (λ q. some q) same'),
            )
      ]
    ]
  ]

  pub record AfterExternal (rules : List HttpRule) (methods methods' : Map (Registered r))
      (t t' : Routes r) : Type 0 where
    pub held : All (ExternalHeld methods t') rules
    pub grows : Grows r t t'
    pub same : SameMethods r methods methods'

  pub attach_external-Held :
      (rules : List HttpRule) (methods methods' : Map (Registered r)) (t t' : Routes r)
      → attach_external r rules methods t ≡ ok (methods', t')
      → AfterExternal rules methods methods' t t'
  unfolding attach_external
  attach_external-Held [] methods methods' t t' h =
      let e : t ≡ t' = ground arith in
      let d : methods ≡ methods' = ground arith in
      rw (← e, ← d) (record { held = tt; grows = Grows-refl r t; same = λ p. refl })
  attach_external-Held (rule ∷ rules) methods methods' t t' h =
      let ((procedure, entry), found, h') = bind-ok (find_selected r rule.selector methods) _ h in
      let ((u, target), attached, h'') =
        bind-ok (attach r true rule.selector entry.method rule t) _ h' in
      let (names, at) = find_selected_ok rule.selector procedure methods entry found in
      let (here, grows) =
        attach-RuleHeld r true rule.selector entry.method rule t u target attached in
      let after =
        attach_external-Held rules (put procedure (first_rule r entry target) methods) methods' u t'
          h'' in
      let same : SameMethods r methods (put procedure (first_rule r entry target) methods) = λ p.
        method_of-put r p procedure entry (first_rule r entry target) methods at
          (first_rule-method r entry target) in
      record {
        held = (
          record {
            procedure = procedure;
            names = names;
            method = entry.method;
            registered = rw (at, method_of) refl;
            held = RuleHeld-Grows r true entry.method rule after.grows here;
          },
          ExternalHeld-kept rules _ _ _ same after.held,
        );
        grows = Grows-trans r grows after.grows;
        same = λ p. same p ∙ after.same p;
      }
