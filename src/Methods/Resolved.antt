-- ===== src/Methods/Resolved.antt =====
-- What `resolveMethods` returns: the registered methods, and the routes of every rule.
use vanguard_go.Methods.Embedded.{EmbeddedHeld, EmbeddedHeld-Grows, attach_embedded-Held, method_of}
use vanguard_go.Methods.Bindings.{RuleHeld}
use vanguard_go.Methods.External.{ExternalHeld, ExternalHeld-kept, attach_external-Held}
use vanguard_go.Fields.Descriptors.{Reflection}
use vanguard_go.Methods.{
  HttpRule, Registered, Routes, attach_embedded, methods_by_procedure, resolve_methods,
}
use vanguard_go.Prelude.{
  All, Bool-cases, Bytes, List, Option, Option-cases, [], arith, bind-ok, bytes_eq, false,
  if◌then◌else◌, inl, inr, none, ok, refl, some, sym, ◌∙◌, ◌∷◌, ◌≡◌,
}
use vanguard_go.Prelude.Map.{Map, get-put, put}
use vanguard_go.Route.Target.{RpcMethod}
use vanguard_go.Route.Trie.{empty_trie}

module _ (r : Reflection) where
  -- The method of the last spec that has a descriptor and this procedure.
  abbrev pub last_with : Bytes → List (Option (RpcMethod r)) → Option (RpcMethod r)
  last_with p [] = none
  last_with p (none ∷ specs) = last_with p specs
  last_with p (some method ∷ specs) =
      let later = last_with p specs in
      elim later [
        | some other ↦ some other
        | none ↦ if bytes_eq method.procedure p then some method else none
      ]

  abbrev or_earlier : Option (RpcMethod r) → Option (RpcMethod r) → Option (RpcMethod r)
  or_earlier (some method) other = some method
  or_earlier none other = other

  or_earlier-none : (found : Option (RpcMethod r)) → or_earlier found none ≡ found
  or_earlier-none none = refl
  or_earlier-none (some method) = refl

  -- What the returned methods and routes are.
  pub record Resolved (extension : RpcMethod r → Option HttpRule)
      (specs : List (Option (RpcMethod r))) (rules : List HttpRule) (methods : Map (Registered r))
      (t : Routes r) : Type 0 where
    pub registered : (p : Bytes) → method_of r p methods ≡ last_with p specs
    pub embedded :
        (p : Bytes) (method : RpcMethod r) (rule : HttpRule)
        → last_with p specs ≡ some method
        → extension method ≡ some rule
        → RuleHeld r false method rule t
    pub external : All (ExternalHeld r methods t) rules

  method_of-put_at :
      (p q : Bytes) (entry : Registered r) (methods : Map (Registered r))
      → method_of r p (put q entry methods)
        ≡ (if bytes_eq q p then some entry.method else method_of r p methods)
  method_of-put_at p q entry methods =
      let g = get-put q p entry methods in
      elim (Bool-cases (bytes_eq q p)) [
        | inl same ↦ rw (method_of, g, same) refl
        | inr other ↦ rw (method_of, g, other) refl
      ]

  registered_last :
      (p : Bytes) (specs : List (Option (RpcMethod r))) (methods : Map (Registered r))
      → method_of r p (methods_by_procedure r specs methods)
        ≡ or_earlier (last_with p specs) (method_of r p methods)
  unfolding methods_by_procedure
  registered_last p [] methods = refl
  registered_last p (none ∷ specs) methods = registered_last p specs methods
  registered_last p (some method ∷ specs) methods =
      let entry : Registered r = record { method = method; http_rule = none } in
      let rest = registered_last p specs (put method.procedure entry methods) in
      let here = method_of-put_at p method.procedure entry methods in
      elim (Option-cases (last_with p specs)) [
        | inr (other, k) ↦ rw (rest, k) refl
        | inl k ↦ elim (Bool-cases (bytes_eq method.procedure p)) [
          | inl same ↦ rw (rest, k, here, same) refl
          | inr other ↦ rw (rest, k, here, other) refl
        ]
      ]

  -- An embedded rule is held for the method that a procedure has in the map.
  held_at :
      (extension : RpcMethod r → Option HttpRule) (p : Bytes) (method : RpcMethod r)
      (rule : HttpRule) (entries : Map (Registered r)) (t : Routes r)
      → All (EmbeddedHeld r extension t) entries
      → method_of r p entries ≡ some method
      → extension method ≡ some rule
      → RuleHeld r false method rule t
  held_at extension p method rule [] t h found e = absurd (ground (arith, found))
  held_at extension p method rule ((q, entry) ∷ entries) t (h, hs) found e =
      elim (Bool-cases (bytes_eq q p)) [
        | inl same ↦
            let d : entry.method ≡ method = ground (arith, found, same) in
            let f : extension entry.method ≡ some rule = rw d e in rw (← d) (h rule f)
        | inr other ↦
            let found' : method_of r p entries ≡ some method = ground (arith, found, other) in
            held_at extension p method rule entries t hs found' e
      ]

  -- When the methods are resolved, the method registered for a procedure is that of the last spec
  -- with a descriptor and this procedure, or none, and the routes hold every binding, primary and
  -- additional, of every rule: of the rules embedded in these methods, and of the rules given as an
  -- option, each for the method that its selector names. A binding of the second kind is one that
  -- REST can carry.
  pub resolve_methods-Resolved :
      (extension : RpcMethod r → Option HttpRule) (specs : List (Option (RpcMethod r)))
      (rules : List HttpRule) (methods : Map (Registered r)) (t : Routes r)
      → resolve_methods r extension specs rules ≡ ok (methods, t)
      → Resolved extension specs rules methods t
  unfolding resolve_methods
  resolve_methods-Resolved extension specs rules methods t h =
      let first_methods = methods_by_procedure r specs [] in
      let ((methods', t'), done, h') =
        bind-ok (attach_embedded r extension first_methods empty_trie) _ h in
      let first = attach_embedded-Held r extension first_methods methods' empty_trie t' done in
      let second = attach_external-Held r rules methods' methods t' t h' in
      let held = EmbeddedHeld-Grows r extension first_methods second.grows first.held in
      let last : (p : Bytes) → method_of r p first_methods ≡ last_with p specs =
        λ p. registered_last p specs [] ∙ or_earlier-none (last_with p specs) in
      record {
        registered = λ p. sym (first.same p ∙ second.same p) ∙ last p;
        embedded = λ p method rule k e.
            held_at extension p method rule first_methods t held (last p ∙ k) e;
        external = ExternalHeld-kept r rules _ _ _ (λ p. sym (second.same p)) second.held;
      }
