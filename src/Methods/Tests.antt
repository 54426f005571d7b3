-- ===== src/Methods/Tests.antt =====
-- Methods at concrete inputs: the method of the sample schema, with a rule from the options.
use vanguard_go.Fields.{
  append_from, append_part, append_path_to_field_descriptors, find_field,
  resolve_path_to_field_descriptors,
}
use vanguard_go.Escape.{is_literal, path_escape, path_unescape}
use vanguard_go.Fields.Sample.{library}
use vanguard_go.Methods.{
  Registered, add_binding, add_bindings, attach, attach_embedded, attach_external, check_target,
  find_selected, methods_by_procedure, no_selector, procedure_from_selector, resolve_methods,
  unknown_selector,
}
use vanguard_go.Methods.Chosen.{choose_rule}
use vanguard_go.Methods.Keyed.{Keyed, resolve_methods-Keyed}
use vanguard_go.Methods.Sample.{embeds_none, find_rule}
use vanguard_go.Methods.Resolved.{Resolved, resolve_methods-Resolved}
use vanguard_go.Prelude.{List, Option, [], codes, err, none, ok, refl, some, ◌∷◌, ◌≡◌}
use vanguard_go.Prelude.Map.{Map}
use vanguard_go.Route.Target.{
  RpcMethod, add_route, body_fields, check_stream_type, insert_route, make_target, method_and_path,
  resolve_fields, rule_target, single_field, target_var, target_vars,
}
use vanguard_go.Route.Target.Sample.{find_book, title_routes, title_target}
use vanguard_go.Route.Trie.{insert}
use vanguard_go.Template.{parse_path_template}

selected : procedure_from_selector (codes "library.Books.Find") ≡ some (codes "/library.Books/Find")
unfolding procedure_from_selector
selected = refl

not_selected : procedure_from_selector (codes ".Find") ≡ none
unfolding procedure_from_selector
not_selected = refl

abbrev specs : List (Option (RpcMethod library))
specs = none ∷ (some find_book ∷ [])

abbrev with_rule : Map (Registered library)
with_rule =
    (codes "/library.Books/Find", record { method = find_book; http_rule = some title_target }) ∷ []

resolved : resolve_methods library embeds_none specs (find_rule ∷ []) ≡ ok (with_rule, title_routes)
unfolding resolve_methods methods_by_procedure attach_external attach_embedded attach add_bindings
    add_binding check_target find_selected procedure_from_selector add_route rule_target
    insert_route insert parse_path_template method_and_path make_target body_fields target_vars
    target_var single_field resolve_fields check_stream_type resolve_path_to_field_descriptors
    append_path_to_field_descriptors append_from append_part find_field is_literal path_escape
    path_unescape
resolved = refl

resolve_methods-Resolved_example :
    Resolved library embeds_none specs (find_rule ∷ []) with_rule title_routes
resolve_methods-Resolved_example =
    resolve_methods-Resolved library embeds_none specs (find_rule ∷ []) with_rule title_routes
      resolved

unselected :
    resolve_methods library embeds_none specs (record find_rule { selector = [] } ∷ [])
    ≡ err no_selector
unfolding resolve_methods methods_by_procedure attach_external attach_embedded find_selected
unselected = refl

unknown :
    resolve_methods library embeds_none [] (find_rule ∷ [])
    ≡ err (unknown_selector (codes "library.Books.Find"))
unfolding resolve_methods methods_by_procedure attach_external attach_embedded find_selected
    procedure_from_selector
unknown = refl

resolve_methods-Keyed_example :
    Keyed library
      (choose_rule library embeds_none (find_rule ∷ []))
      (codes "/library.Books/Find")
      (record { method = find_book; http_rule = some title_target })
resolve_methods-Keyed_example =
    resolve_methods-Keyed library embeds_none specs (find_rule ∷ []) with_rule title_routes resolved
      (codes "/library.Books/Find") (record { method = find_book; http_rule = some title_target })
      refl
