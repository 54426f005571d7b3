-- ===== src/Route/Target/Made.antt =====
-- What `makeTarget` returns: the fields of the bodies and of the variables.
use vanguard_go.Fields.Descriptors.{Reflection}
use vanguard_go.Fields.Resolve.{resolve-Walked}
use vanguard_go.Fields.Walk.{Walk-nonempty, Walked}
use vanguard_go.Prelude.{
  All, Bool-cases, Bytes, List, Option, Option-cases, [], ap₂, arith, bind-ok, bytes_eq,
  bytes_eq_iff, codes, false, inl, inr, is_empty, length, ltb, map, none, ok, ok-injective, refl,
  some, true, ◌∷◌, ◌≡◌,
}
use vanguard_go.Route.Target.{
  RouteTarget, RouteTargetVar, RpcMethod, TargetError, body_fields, check_stream_type, last_of,
  make_target, request_body_not_single, resolve_fields, response_body_not_single, single_field,
  target_var, target_vars,
}
use vanguard_go.Template.{PathVariable}

module _ (r : Reflection) where
  open r use {Message, Field, is_list}

  -- A body path selects the whole message by "*", nothing by "", or one field of the message.
  pub data BodyOf (msg : Message) (path : Bytes) : Option (List Field) → Type 0 where
    whole_message : path ≡ codes "*" → BodyOf msg path (some [])
    no_body : path ≡ [] → BodyOf msg path none
    one_field :
        {field : Field} → Walked r false msg path (field ∷ []) → BodyOf msg path (some (field ∷ []))

  -- A variable of a route has the fields that its path names, and the last of them is no list.
  pub record IsBound (msg : Message) (v : RouteTargetVar r) : Type 0 where
    pub walked : Walked r false msg v.variable.field_path v.fields
    pub final : Field
    pub is_last : last_of v.fields ≡ some final
    pub singular : is_list final ≡ false

  resolve_fields-Walked :
      (msg : Message) (path : Bytes) (fields : List Field)
      → resolve_fields r msg path ≡ ok fields
      → Walked r false msg path fields
  unfolding resolve_fields
  resolve_fields-Walked msg path fields h = resolve-Walked r msg path false fields (ground arith)

  one_of_Walked :
      (msg : Message) (path : Bytes) (fields : List Field)
      → Walked r false msg path fields
      → ltb 1 (length fields) ≡ false
      → BodyOf msg path (some fields)
  one_of_Walked msg path [] w h = absurd (omega (arith, Walk-nonempty r w.walk))
  one_of_Walked msg path (field ∷ []) w h = one_field w
  one_of_Walked msg path (field ∷ (f ∷ fields)) w h = absurd (ground arith)

  is_empty-eq : (s : Bytes) → is_empty s ≡ true → s ≡ []
  is_empty-eq [] h = refl
  is_empty-eq (c ∷ s) h = absurd (ground arith)

  body_fields-BodyOf :
      (e : TargetError) (msg : Message) (path : Bytes) (fields : Option (List Field))
      → body_fields r e msg path ≡ ok fields
      → BodyOf msg path fields
  unfolding body_fields single_field
  body_fields-BodyOf e msg path fields h = elim (Bool-cases (bytes_eq path (codes "*"))) [
    | inl star ↦
        let d : some [] ≡ fields = ground arith in
        rw (← d) (whole_message ((bytes_eq_iff path (codes "*")).0 star))
    | inr other ↦ elim (Bool-cases (is_empty path)) [
      | inl blank ↦
          let d : none ≡ fields = ground arith in rw (← d) (no_body (is_empty-eq path blank))
      | inr filled ↦
          let (found, f, k) =
            bind-ok (resolve_fields r msg path) (single_field r e) {last = fields} (ground arith) in
          let d : some found ≡ fields = ground arith in
          rw (← d)
            (one_of_Walked msg path found (resolve_fields-Walked msg path found f) (ground arith))
    ]
  ]

  target_var-IsBound :
      (msg : Message) (variable : PathVariable) (fields : List Field) (v : RouteTargetVar r)
      → resolve_fields r msg variable.field_path ≡ ok fields
      → target_var r variable fields ≡ ok v
      → IsBound msg v × (v.variable ≡ variable)
  unfolding target_var
  target_var-IsBound msg variable fields v f h = elim (Option-cases (last_of fields)) [
    | inl e ↦ absurd (ground arith)
    | inr (final, e) ↦
        let made : record { variable = variable; fields = fields } ≡ v = ground arith in
        rw (← made) (
          record {
            walked = resolve_fields-Walked msg variable.field_path fields f;
            final = final;
            is_last = e;
            singular = ground arith;
          },
          refl,
        )
  ]

  target_vars-IsBound :
      (msg : Message) (variables : List PathVariable) (vars : List (RouteTargetVar r))
      → target_vars r msg variables ≡ ok vars
      → All (IsBound msg) vars × (map (λ v. v.variable) vars ≡ variables)
  unfolding target_vars
  target_vars-IsBound msg [] vars h = let d : [] ≡ vars = ok-injective h in rw (← d) (tt, refl)
  target_vars-IsBound msg (variable ∷ variables) vars h =
      let (fields, f, h') = bind-ok (resolve_fields r msg variable.field_path) _ h in
      let (v, g, h'') = bind-ok (target_var r variable fields) _ h' in
      let (rest, k, made) = bind-ok (target_vars r msg variables) _ h'' in
      let d : v ∷ rest ≡ vars = ok-injective made in
      let (b, e) = target_var-IsBound msg variable fields v f g in
      let (bs, es) = target_vars-IsBound msg variables rest k in
      rw (← d) ((b, bs), ap₂ (λ x xs. x ∷ xs) e es)

  -- A target with its fields bound.
  pub record IsMade (method : RpcMethod r) (http_method request_body response_body template : Bytes)
      (variables : List PathVariable) (target : RouteTarget r) : Type 0 where
    pub method_kept : target.method ≡ method
    pub http_method_kept : target.http_method ≡ http_method
    pub template_kept : target.template ≡ template
    pub request : BodyOf method.input request_body target.request_body_fields
    pub response : BodyOf method.output response_body target.response_body_fields
    pub bound : All (IsBound method.input) target.vars
    pub variables_kept : map (λ v. v.variable) target.vars ≡ variables
    pub checked :
        target.unsupported
        ≡ check_stream_type r method target.request_body_fields target.response_body_fields

  -- A target that `makeTarget` returns keeps the method, the HTTP method, the template and the
  -- variables that it is made from. Each body path selects the whole message by "*", nothing by "",
  -- or else one field, of the method's input for the request and of its output for the response.
  -- Each variable has the fields that its path names in the input, the last of them no list. The
  -- target is unsupported as `checkStreamType` says of its body fields.
  pub make_target-IsMade :
      (method : RpcMethod r) (http_method request_body response_body template : Bytes)
      (variables : List PathVariable) (pattern : Bytes) (target : RouteTarget r)
      → make_target r method http_method request_body response_body template variables pattern
        ≡ ok target
      → IsMade method http_method request_body response_body template variables target
  unfolding make_target
  make_target-IsMade method http_method request_body response_body template variables pattern target
        h =
      let (q, f, h') =
        bind-ok (body_fields r (request_body_not_single request_body) method.input request_body) _
          h in
      let (s, g, h'') =
        bind-ok (body_fields r (response_body_not_single request_body) method.output response_body)
          _ h' in
      let (vars, k, made) = bind-ok (target_vars r method.input variables) _ h'' in
      let (bound, kept) = target_vars-IsBound method.input variables vars k in
      rw (← ok-injective made) (record {
        method_kept = refl;
        http_method_kept = refl;
        template_kept = refl;
        request =
            body_fields-BodyOf (request_body_not_single request_body) method.input request_body q f;
        response =
            body_fields-BodyOf (response_body_not_single request_body) method.output response_body s
              g;
        bound = bound;
        variables_kept = kept;
        checked = refl;
      })
