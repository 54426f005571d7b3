-- ===== src/Methods.antt =====
-- method.go, the methods of a server and their routes: `procedureFromSelector` and
-- `resolveMethods`, and in `Specs` `methodFromSpec`. The methods of the server's specs are given to
-- `resolve_methods`, and so is which of them carries an embedded rule (`getHTTPRuleExtension`), which
-- is read from descriptors. The source ranges over the map of methods, in an order that Go leaves
-- open: it is the order of the entries here.
pub mod Selector
pub mod Bindings
pub mod Embedded
pub mod External
pub mod Resolved
pub mod Specs
pub mod Sample
pub mod Chosen
pub mod Keyed
mod Tests
use vanguard_go.Fields.Descriptors.{Reflection}
use vanguard_go.Prelude.{
  Bool, Bytes, List, Option, Result, [], cut_last, err, false, if◌then◌else◌, is_empty, none, ok,
  some, true, ◌++◌, ◌>>=◌, ◌||◌, ◌∷◌,
}
use vanguard_go.Prelude.Map.{Map, get, put}
use vanguard_go.Route.Target.{Binding, RouteError, RouteTarget, RpcMethod, Unsupported, add_route}
use vanguard_go.Route.Trie.{Trie, empty_trie}

-- none for false
unfoldable pub procedure_from_selector : Bytes → Option Bytes
procedure_from_selector selector = elim (cut_last b'.' selector) [
  | none ↦ none
  | some (service, name) ↦
      if is_empty service || is_empty name then none else some (b'/' ∷ (service ++ (b'/' ∷ name)))
]

pub record HttpRule : Type 0 where
  pub selector : Bytes
  pub primary : Binding
  pub additional_bindings : List Binding

module _ (r : Reflection) where
  -- `methods[procedure]`, with its primary route once it has one.
  pub record Registered : Type 0 where
    pub method : RpcMethod r
    pub http_rule : Option (RouteTarget r)

  pub data BindError : Type 0 where
    not_added : RouteError r → BindError
    unsupported_route : Unsupported → BindError

  pub data ResolveError : Type 0 where
    attach_rule attach_additional : Bytes → BindError → ResolveError
    no_selector : ResolveError
    malformed_selector unknown_selector : Bytes → ResolveError

  abbrev pub Routes : Type 0
  Routes = Trie (RouteTarget r)

  -- `addRoute`, and for rules from the options (`strict`) the check of the target.
  unfoldable pub check_target :
      Bool → Routes → RouteTarget r → Result BindError (Routes × RouteTarget r)
  check_target false routes target = ok (routes, target)
  check_target true routes target = elim target.unsupported [
    | none ↦ ok (routes, target)
    | some reason ↦ err (unsupported_route reason)
  ]

  unfoldable pub add_binding :
      Bool → RpcMethod r → Binding → Routes → Result BindError (Routes × RouteTarget r)
  add_binding strict method binding routes =
      let (routes', added) = add_route r method binding routes in
      elim added [ err e ↦ err (not_added e) | ok target ↦ check_target strict routes' target ]

  -- The loop over the additional bindings; `label` is what the error message names.
  unfoldable pub add_bindings :
      Bool → Bytes → RpcMethod r → List Binding → Routes → Result ResolveError Routes
  add_bindings strict label method [] routes = ok routes
  add_bindings strict label method (extra ∷ extras) routes =
      elim (add_binding strict method extra routes) [
        | err e ↦ err (attach_additional label e)
        | ok (routes', target) ↦ add_bindings strict label method extras routes'
      ]

  unfoldable pub attach :
      Bool → Bytes → RpcMethod r → HttpRule → Routes → Result ResolveError (Routes × RouteTarget r)
  attach strict label method rule routes = elim (add_binding strict method rule.primary routes) [
    | err e ↦ err (attach_rule label e)
    | ok (routes', target) ↦ (do
      routes'' ← add_bindings strict label method rule.additional_bindings routes'
      ok (routes'', target))
  ]

  -- Step 1, over the entries of the map: rules embedded in the descriptors.
  unfoldable pub attach_embedded :
      (RpcMethod r → Option HttpRule)
      → Map Registered
      → Routes
      → Result ResolveError (Map Registered × Routes)
  attach_embedded extension [] routes = ok ([], routes)
  attach_embedded extension ((procedure, entry) ∷ entries) routes = elim (extension entry.method) [
    | none ↦ (do
      (entries', routes') ← attach_embedded extension entries routes
      ok ((procedure, entry) ∷ entries', routes'))
    | some rule ↦ (do
      (routes', target) ← attach false procedure entry.method rule routes
      (entries', routes'') ← attach_embedded extension entries routes'
      ok ((procedure, record entry { http_rule = some target }) ∷ entries', routes''))
  ]

  -- `if method.httpRule == nil`
  abbrev pub first_rule : Registered → RouteTarget r → Registered
  first_rule entry target = elim entry.http_rule [
    | none ↦ record entry { http_rule = some target }
    | some _ ↦ entry
  ]

  unfoldable pub find_selected : Bytes → Map Registered → Result ResolveError (Bytes × Registered)
  find_selected selector methods =
      if is_empty selector then err no_selector else elim (procedure_from_selector selector) [
        | none ↦ err (malformed_selector selector)
        | some procedure ↦ elim (get procedure methods) [
          | none ↦ err (unknown_selector selector)
          | some entry ↦ ok (procedure, entry)
        ]
      ]

  -- Step 2: rules given by `WithRules`.
  unfoldable pub attach_external :
      List HttpRule → Map Registered → Routes → Result ResolveError (Map Registered × Routes)
  attach_external [] methods routes = ok (methods, routes)
  attach_external (rule ∷ rules) methods routes = do
    (procedure, entry) ← find_selected rule.selector methods
    (routes', target) ← attach true rule.selector entry.method rule routes
    attach_external rules (put procedure (first_rule entry target) methods) routes'

  -- The methods of the specs that have a descriptor, by procedure.
  unfoldable pub methods_by_procedure :
      List (Option (RpcMethod r)) → Map Registered → Map Registered
  methods_by_procedure [] methods = methods
  methods_by_procedure (none ∷ specs) methods = methods_by_procedure specs methods
  methods_by_procedure (some method ∷ specs) methods =
      methods_by_procedure specs
        (put method.procedure (record { method = method; http_rule = none }) methods)

  unfoldable pub resolve_methods :
      (RpcMethod r → Option HttpRule)
      → List (Option (RpcMethod r))
      → List HttpRule
      → Result ResolveError (Map Registered × Routes)
  resolve_methods extension specs rules = do
    (methods, routes) ← attach_embedded extension (methods_by_procedure specs []) empty_trie
    attach_external rules methods routes
