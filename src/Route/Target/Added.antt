-- ===== src/Route/Target/Added.antt =====
-- What `addRoute` does to the trie: the new route on success, and nothing on an error.
use vanguard_go.Fields.Descriptors.{Reflection}
use vanguard_go.Prelude.{
  Bool, Bytes, List, Option-cases, Result-cases, ap, arith, err, false, inl, inr, is_empty, none,
  ok, refl, some, subst, subst₂, sym, true, ◌++◌, ◌∙◌, ◌≡◌, ◌≢◌, codes,
}
use vanguard_go.Route.Served.{insert-match, same_route_self}
use vanguard_go.Route.Target.{
  Binding, RouteError, RouteTarget, RpcMethod, add_route, insert_route, make_target,
  method_and_path, rule_target,
}
use vanguard_go.Route.Target.Made.{IsMade, make_target-IsMade}
use vanguard_go.Route.Templates.{insert-template, verb_text}
use vanguard_go.Route.Trie.{Trie, insert, match}
use vanguard_go.Route.Trie.Insert.{
  after_insert, insert_at-existing, insert_at-route_at, route_at, same_route,
}
use vanguard_go.Route.Trie.Matching.{Reads, is_rejected}
use vanguard_go.Template.{PathVariable, parse_path_template}
use vanguard_go.Template.Canonical.{IsTemplate, parse_path_template-IsTemplate}

module _ (r : Reflection) where
  -- What a rule gives when it is accepted: the HTTP method and the path of its pattern, the
  -- canonical template that the path parses to, and a target made from them.
  pub record FromRule (method : RpcMethod r) (rule : Binding) (http_method : Bytes)
      (target : RouteTarget r) : Type 0 where
    pub path : Bytes
    pub template : Bytes
    pub variables : List PathVariable
    pub pattern_of : method_and_path rule.pattern ≡ some (http_method, path)
    pub named : is_empty http_method ≡ false
    pub parsed : parse_path_template path ≡ ok (template, variables)
    pub made : IsMade r method http_method rule.body rule.response_body template variables target

  pub rule_target-FromRule :
      (method : RpcMethod r) (rule : Binding) (http_method : Bytes) (target : RouteTarget r)
      → rule_target r method rule ≡ ok (http_method, target)
      → FromRule method rule http_method target
  unfolding rule_target
  rule_target-FromRule method rule http_method target h =
      elim (Option-cases (method_and_path rule.pattern)) [
        | inl e ↦ absurd (ground arith)
        | inr ((m, path), e) ↦ elim (Result-cases (parse_path_template path)) [
          | inr (x, p) ↦ absurd (ground arith)
          | inl ((canonical, variables), p) ↦
              elim (Result-cases (
                make_target r method m rule.body rule.response_body canonical variables
                  (m ++ (codes " " ++ path)))) [
                    | inr (x, k) ↦ absurd (ground arith)
                    | inl (made, k) ↦
                        let same_target : made ≡ target = ground arith in
                        let same_method : m ≡ http_method = ground arith in
                        let valid =
                          make_target-IsMade r method m rule.body rule.response_body canonical
                            variables (m ++ (codes " " ++ path)) made k in
                        subst₂ (λ x y. FromRule method rule x y) same_method same_target
                          (record {
                            path = path;
                            template = canonical;
                            variables = variables;
                            pattern_of = e;
                            named = ground arith;
                            parsed = p;
                            made = valid;
                          })
                  ]
        ]
      ]

  -- The state of a trie after `insert` of a canonical template, with the conflict if there is one.
  pub insert-existing :
      {A : Type 0} {template : Bytes} {vars : List PathVariable} (h : IsTemplate template vars)
      (m : Bytes) (a : A) (t : Trie A)
      → (insert m template a t).1 ≡ route_at h.segments (verb_text h.verb) m t
  insert-existing h m a t =
      ap (λ p. p.1) (insert-template h m a t)
      ∙ insert_at-existing h.segments (verb_text h.verb) m a t

  insert-route_at :
      {A : Type 0} {template : Bytes} {vars : List PathVariable} (h : IsTemplate template vars)
      (m : Bytes) (a : A) (t : Trie A) (ss : List Bytes) (v m' : Bytes)
      → route_at ss v m' (insert m template a t).0
        ≡ after_insert
            (same_route h.segments (verb_text h.verb) m ss v m')
            (route_at h.segments (verb_text h.verb) m t)
            a
            (route_at ss v m' t)
  insert-route_at h m a t ss v m' =
      ap (λ p. route_at ss v m' p.0) (insert-template h m a t)
      ∙ insert_at-route_at h.segments ss (verb_text h.verb) m v m' a t

  -- The trie `t'` has the target for its template's segments and verb under the HTTP method, where
  -- `t` had none, and every other route of `t'` is that of `t`.
  pub record Adds (http_method : Bytes) (target : RouteTarget r) (t t' : Trie (RouteTarget r))
      : Type 0 where
    pub vars : List PathVariable
    pub canonical : IsTemplate target.template vars
    pub was_free : route_at canonical.segments (verb_text canonical.verb) http_method t ≡ none
    pub held : route_at canonical.segments (verb_text canonical.verb) http_method t' ≡ some target
    pub others :
        (ss : List Bytes) (v m : Bytes)
        → same_route canonical.segments (verb_text canonical.verb) http_method ss v m ≡ false
        → route_at ss v m t' ≡ route_at ss v m t

  insert_route_ok :
      (http_method : Bytes) (target added : RouteTarget r) (t t' : Trie (RouteTarget r))
      → insert_route r http_method target t ≡ (t', ok added)
      → (t' ≡ (insert http_method target.template target t).0)
        × ((insert http_method target.template target t).1 ≡ none)
        × (added ≡ target)
  unfolding insert_route
  insert_route_ok http_method target added t t' e =
      elim (Option-cases (insert http_method target.template target t).1) [
        | inr (other, f) ↦ absurd (ground arith)
        | inl f ↦ (ground arith, f, ground arith)
      ]

  insert-Adds :
      (http_method : Bytes) (target : RouteTarget r) (t : Trie (RouteTarget r))
      {vars : List PathVariable} (h : IsTemplate target.template vars)
      → (insert http_method target.template target t).1 ≡ none
      → Adds http_method target t (insert http_method target.template target t).0
  insert-Adds http_method target t {vars} h f =
      let verb = verb_text h.verb in
      let free : route_at h.segments verb http_method t ≡ none =
        sym (insert-existing h http_method target t) ∙ f in
      record {
        vars = vars;
        canonical = h;
        was_free = free;
        held =
            insert-route_at h http_method target t h.segments verb http_method
            ∙ rw (same_route_self, free);
        others = λ ss v m d. insert-route_at h http_method target t ss v m ∙ rw d;
      }

  -- What a successful `addRoute` does: it makes the target from the rule, and the trie has that
  -- route more and no other change.
  pub record RouteAdded (method : RpcMethod r) (rule : Binding) (target : RouteTarget r)
      (t t' : Trie (RouteTarget r)) : Type 0 where
    pub http_method : Bytes
    pub from_rule : FromRule method rule http_method target
    pub adds : Adds http_method target t t'

  add_route_ok :
      (method : RpcMethod r) (rule : Binding) (target : RouteTarget r) (t t' : Trie (RouteTarget r))
      → add_route r method rule t ≡ (t', ok target)
      → (http_method : Bytes) × FromRule method rule http_method target
        × (t' ≡ (insert http_method target.template target t).0)
        × ((insert http_method target.template target t).1 ≡ none)
  unfolding add_route
  add_route_ok method rule target t t' h = elim (Result-cases (rule_target r method rule)) [
    | inr (x, e) ↦ absurd (ground arith)
    | inl ((http_method, made), e) ↦
        let (same, fresh, kept) = insert_route_ok http_method made target t t' (ground arith) in
        (
          http_method,
          rw kept (rule_target-FromRule method rule http_method made e),
          rw kept same,
          rw kept fresh,
        )
  ]

  pub template_of_FromRule :
      {method : RpcMethod r} {rule : Binding} {http_method : Bytes} {target : RouteTarget r}
      (f : FromRule method rule http_method target)
      → IsTemplate target.template f.variables
  template_of_FromRule f =
      subst (λ s. IsTemplate s f.variables) (sym f.made.template_kept)
        (parse_path_template-IsTemplate f.path f.template f.variables f.parsed)

  -- When `addRoute` returns a target, it is made from the rule and the canonical form of its path,
  -- the trie had no route for that template and HTTP method, and it now has this one and all the
  -- others that it had.
  pub add_route-RouteAdded :
      (method : RpcMethod r) (rule : Binding) (target : RouteTarget r) (t t' : Trie (RouteTarget r))
      → add_route r method rule t ≡ (t', ok target)
      → RouteAdded method rule target t t'
  add_route-RouteAdded method rule target t t' h =
      let (http_method, f, same, fresh) = add_route_ok method rule target t t' h in
      record {
        http_method = http_method;
        from_rule = f;
        adds =
            subst (Adds http_method target t) (sym same)
              (insert-Adds http_method target t (template_of_FromRule f) fresh);
      }

  insert_conflict :
      (http_method : Bytes) (target other : RouteTarget r) (t : Trie (RouteTarget r))
      {vars : List PathVariable} (h : IsTemplate target.template vars)
      → (insert http_method target.template target t).1 ≡ some other
      → (ss : List Bytes) (v m : Bytes)
      → route_at ss v m (insert http_method target.template target t).0 ≡ route_at ss v m t
  insert_conflict http_method target other t h f ss v m =
      let held = sym (insert-existing h http_method target t) ∙ f in
      insert-route_at h http_method target t ss v m
      ∙ rw held (after_conflict (same_route h.segments (verb_text h.verb) http_method ss v m))
    where
      after_conflict :
          (same : Bool)
          → after_insert same (some other) target (route_at ss v m t) ≡ route_at ss v m t
      after_conflict true = refl
      after_conflict false = refl

  -- When `addRoute` returns an error, every route of the trie is what it was.
  pub add_route_error :
      (method : RpcMethod r) (rule : Binding) (e : RouteError r) (t t' : Trie (RouteTarget r))
      → add_route r method rule t ≡ (t', err e)
      → (ss : List Bytes) (v m : Bytes) → route_at ss v m t' ≡ route_at ss v m t
  unfolding add_route insert_route
  add_route_error method rule e t t' h ss v m = elim (Result-cases (rule_target r method rule)) [
    | inr (x, d) ↦ ap (λ s. route_at ss v m s) (ground arith)
    | inl ((http_method, target), d) ↦
        let f = rule_target-FromRule method rule http_method target d in
        elim (Option-cases (insert http_method target.template target t).1) [
          | inl k ↦ absurd (ground arith)
          | inr (other, k) ↦
              let same : t' ≡ (insert http_method target.template target t).0 = ground arith in
              rw same (insert_conflict http_method target other t (template_of_FromRule f) k ss v m)
        ]
  ]

  -- A rule that `addRoute` takes is served: every request path that is not rejected and that the
  -- canonical template of the rule reads finds a target or methods, whatever the request's method.
  pub add_route-match :
      (method : RpcMethod r) (rule : Binding) (target : RouteTarget r) (t t' : Trie (RouteTarget r))
      → add_route r method rule t ≡ (t', ok target)
      → (vars : List PathVariable) (h : IsTemplate target.template vars)
      → (uri_path request_method : Bytes) → is_rejected uri_path ≡ false
      → Reads h.segments (verb_text h.verb) uri_path
      → match uri_path request_method t' ≢ (none, none)
  add_route-match method rule target t t' e vars h uri_path request_method accepted reads =
      let (http_method, f, same, fresh) = add_route_ok method rule target t t' e in
      rw same (insert-match h http_method target t fresh uri_path request_method accepted reads)
