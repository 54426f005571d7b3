-- ===== src/Transport/Agreement.antt =====
-- A transport and a server with the same options: the same primary route for the same procedure.
use vanguard_go.Fields.Descriptors.{Reflection}
use vanguard_go.Methods.{HttpRule, Registered, Routes, add_binding, check_target, unsupported_route}
use vanguard_go.Methods.Chosen.{MadeOf, Primary, choose_rule}
use vanguard_go.Methods.Keyed.{resolve_methods-Keyed}
use vanguard_go.Methods.Specs.{Method, Spec, SpecLibrary, method_from_spec, rpc_method}
use vanguard_go.Prelude.{
  Bytes, List, Option, Option-cases, Result, ap, arith, bind-ok, err, inl, inr, none, ok, refl,
  some, subst, sym, true, ◌∙◌, ◌≡◌,
}
use vanguard_go.Prelude.Map.{get}
use vanguard_go.Route.Target.{
  Binding, RouteTarget, RpcMethod, Unsupported, add_route, insert_route, rule_target,
}
use vanguard_go.Route.Target.Added.{insert-existing, rule_target-FromRule, template_of_FromRule}
use vanguard_go.Route.Templates.{verb_text}
use vanguard_go.Route.Trie.{empty_trie, insert, method_target}
use vanguard_go.Route.Trie.Insert.{methods_at-empty, route_at}
use vanguard_go.Transport.{
  Config, MethodError, Mounted, Platform, Setting, attach_failed, configure, mount, no_rule,
  resolve_fresh,
}

route_at-empty :
    {A : Type 0} (ss : List Bytes) (v m : Bytes) → route_at {A = A} ss v m empty_trie ≡ none
unfolding route_at method_target
route_at-empty ss v m = rw methods_at-empty refl

module _ (r : Reflection) where
  insert_empty :
      (method : RpcMethod r) (binding : Binding) (http_method : Bytes) (target : RouteTarget r)
      → rule_target r method binding ≡ ok (http_method, target)
      → (insert {A = RouteTarget r} http_method target.template target empty_trie).1 ≡ none
  insert_empty method binding http_method target h =
      let f = rule_target-FromRule r method binding http_method target h in
      let t = template_of_FromRule r f in
      insert-existing r t http_method target empty_trie
      ∙ route_at-empty t.segments (verb_text t.verb) http_method

  -- `addRoute` on no routes gives the target that the rule makes.
  add_route-empty :
      (method : RpcMethod r) (binding : Binding) (http_method : Bytes) (target : RouteTarget r)
      → rule_target r method binding ≡ ok (http_method, target)
      → (add_route r method binding empty_trie).1 ≡ ok target
  unfolding add_route insert_route
  add_route-empty method binding http_method target h =
      let e = insert_empty method binding http_method target h in ground arith

  add_binding-empty :
      (method : RpcMethod r) (binding : Binding) (http_method : Bytes) (target : RouteTarget r)
      → rule_target r method binding ≡ ok (http_method, target)
      → target.unsupported ≡ none
      → (t : Routes r) × (add_binding r true method binding empty_trie ≡ ok (t, target))
  unfolding add_binding check_target
  add_binding-empty method binding http_method target h e =
      let d = add_route-empty method binding http_method target h in
      ((add_route r method binding empty_trie).0, ground arith)

  add_binding-unsupported :
      (method : RpcMethod r) (binding : Binding) (http_method : Bytes) (target : RouteTarget r)
      (reason : Unsupported)
      → rule_target r method binding ≡ ok (http_method, target)
      → target.unsupported ≡ some reason
      → add_binding r true method binding empty_trie ≡ err (unsupported_route reason)
  unfolding add_binding check_target
  add_binding-unsupported method binding http_method target reason h e =
      let d = add_route-empty method binding http_method target h in ground arith

  module _ (lib : SpecLibrary r) (p : Platform (SpecLibrary.Resolver lib))
      (extension : RpcMethod r → Option HttpRule) where
    open lib use {Schema, Resolver}
    open p use {Codec, Compressor}

    -- What the transport resolves, from the primary target that the server has.
    abbrev pub resolved_as :
        Method r lib → Option (RouteTarget r) → Result (MethodError r lib p) (Method r lib)
    resolved_as m none = err (no_rule m.spec.procedure)
    resolved_as m (some target) = elim target.unsupported [
      | none ↦ ok (record m { http_rule = some target })
      | some reason ↦ err (attach_failed m.spec.procedure (unsupported_route reason))
    ]

    method_from_spec-spec :
        (spec : Spec Schema) (resolver : Option Resolver) (m : Method r lib)
        → method_from_spec r lib spec resolver ≡ some m
        → m.spec ≡ spec
    unfolding method_from_spec
    method_from_spec-spec spec resolver m h = elim (Option-cases (lib.descriptor_of spec.schema)) [
      | inl e ↦ absurd (ground arith)
      | inr (desc, e) ↦ ground arith
    ]

    resolve_fresh-made :
        (options : Config r lib p) (spec : Spec Schema) (m : Method r lib) (rule : HttpRule)
        (target : RouteTarget r)
        → method_from_spec r lib spec options.resolver ≡ some m
        → m.spec ≡ spec
        → choose_rule r extension options.rules (rpc_method r lib m) ≡ some rule
        → MadeOf r (rpc_method r lib m) rule target
        → resolve_fresh r lib p extension options spec ≡ resolved_as m (some target)
    unfolding resolve_fresh
    resolve_fresh-made options spec m rule target e same h made =
        elim (Option-cases target.unsupported) [
          | inl u ↦
              let (t, added) =
                add_binding-empty (rpc_method r lib m) rule.primary made.http_method target
                  made.made u in
              ground (arith, e, h, added, u)
          | inr (reason, u) ↦
              let refused =
                add_binding-unsupported (rpc_method r lib m) rule.primary made.http_method target
                  reason made.made u in
              ground (arith, e, h, refused, u, same)
        ]

    resolve_fresh-Primary :
        (options : Config r lib p) (spec : Spec Schema) (m : Method r lib)
        (found : Option (RouteTarget r))
        → method_from_spec r lib spec options.resolver ≡ some m
        → Primary r
            (rpc_method r lib m)
            (choose_rule r extension options.rules (rpc_method r lib m))
            found
        → resolve_fresh r lib p extension options spec ≡ resolved_as m found
    unfolding resolve_fresh
    resolve_fresh-Primary options spec m found e primary =
        let same = method_from_spec-spec spec options.resolver m e in
        let chosen = choose_rule r extension options.rules (rpc_method r lib m) in
        elim (Option-cases chosen) [
          | inl h ↦
              let unset = subst (λ x. Primary r (rpc_method r lib m) x found) h primary in
              ground (arith, e, h, unset, same)
          | inr (rule, h) ↦
              let (target, set, made) =
                subst (λ x. Primary r (rpc_method r lib m) x found) h primary in
              resolve_fresh-made options spec m rule target e same h made
              ∙ ap (resolved_as m) (sym set)
        ]

    -- A server and a transport with the same settings agree on every procedure that the server
    -- registers. If the spec given to the transport is that of the registered method, the
    -- transport's resolution gives the primary target of the server; it fails exactly when the
    -- server has none, for want of a rule, or has one whose stream REST cannot carry.
    pub resolve_fresh-mount :
        (settings : List (Setting Codec Resolver Compressor)) (specs : List (Spec Schema))
        (mounted : Mounted r lib p)
        → mount r lib p extension settings specs ≡ ok mounted
        → (procedure : Bytes) (entry : Registered r) → get procedure mounted.methods ≡ some entry
        → (spec : Spec Schema) (m : Method r lib)
        → method_from_spec r lib spec (configure r lib p settings).resolver ≡ some m
        → rpc_method r lib m ≡ entry.method
        → resolve_fresh r lib p extension (configure r lib p settings) spec
          ≡ resolved_as m entry.http_rule
    unfolding mount
    resolve_fresh-mount settings specs mounted h procedure entry found spec m e same =
        let ((methods, routes), resolved, h') = bind-ok _ _ h in
        let d : methods ≡ mounted.methods = ground arith in
        let k =
          resolve_methods-Keyed r extension _ _ methods routes resolved procedure entry
            (subst (λ ms. get procedure ms ≡ some entry) (sym d) found) in
        let options = configure r lib p settings in
        let primary =
          subst (λ x. Primary r x (choose_rule r extension options.rules x) entry.http_rule)
            (sym same) k.primary in
        resolve_fresh-Primary options spec m entry.http_rule e primary
