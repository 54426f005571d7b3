-- ===== src/Route/Target/Tests.antt =====
-- The operations at the sample rule.
use vanguard_go.Escape.{is_literal, is_variable, path_escape, path_unescape}
use vanguard_go.Fields.{
  append_from, append_part, append_path_to_field_descriptors, find_field,
  resolve_path_to_field_descriptors,
}
use vanguard_go.Fields.Sample.{library}
use vanguard_go.Prelude.{
  [], ap, arith, codes, err, false, inl, inr, none, ok, refl, some, ◌∷◌, ◌≡◌, ◌≢◌,
}
use vanguard_go.Route.Target.{
  add_route, already_exists, body_fields, check_stream_type, insert_route, make_target,
  method_and_path, resolve_fields, rule_target, single_field, target_var, target_vars,
}
use vanguard_go.Route.Target.Added.{
  RouteAdded, add_route-RouteAdded, add_route-match, add_route_error,
}
use vanguard_go.Route.Target.Made.{IsMade, make_target-IsMade}
use vanguard_go.Route.Target.Sample.{
  find_book, title_rule, title_variable, title_target, no_routes, title_routes,
}
use vanguard_go.Route.Trie.{insert, match}
use vanguard_go.Route.Trie.Covers.{done, literal, star}
use vanguard_go.Route.Trie.Insert.{route_at}
use vanguard_go.Route.Trie.Matching.{Reads}
use vanguard_go.Segment.{canonical_segment}
use vanguard_go.Template.{parse_path_template}
use vanguard_go.Template.Canonical.{IsTemplate}
use vanguard_go.Template.Literal.{IsCanonicalLiteral}

made :
    make_target library find_book
      (codes "GET")
      []
      (codes "full_name")
      (codes "/v1/*")
      (title_variable ∷ [])
      (codes "GET /v1/{title}")
    ≡ ok title_target
unfolding make_target body_fields target_vars target_var single_field resolve_fields
    check_stream_type resolve_path_to_field_descriptors append_path_to_field_descriptors append_from
    append_part find_field
made = refl

make_target-IsMade_example :
    IsMade library find_book
      (codes "GET")
      []
      (codes "full_name")
      (codes "/v1/*")
      (title_variable ∷ [])
      title_target
make_target-IsMade_example =
    make_target-IsMade library find_book (codes "GET") [] (codes "full_name") (codes "/v1/*")
      (title_variable ∷ []) (codes "GET /v1/{title}") title_target made

title_added : (add_route library find_book title_rule no_routes).1 ≡ ok title_target
unfolding add_route rule_target insert_route insert parse_path_template method_and_path make_target
    body_fields target_vars target_var single_field resolve_fields check_stream_type
    resolve_path_to_field_descriptors append_path_to_field_descriptors append_from append_part
    find_field is_literal path_escape path_unescape
title_added = refl

added : add_route library find_book title_rule no_routes ≡ (title_routes, ok title_target)
added = ap (λ x. (title_routes, x)) title_added

add_route-RouteAdded_example :
    RouteAdded library find_book title_rule title_target no_routes title_routes
add_route-RouteAdded_example =
    add_route-RouteAdded library find_book title_rule title_target no_routes title_routes added

conflict :
    (add_route library find_book title_rule title_routes).1
    ≡ err (already_exists title_target (codes "/v1/*") (codes "GET"))
unfolding add_route rule_target insert_route insert parse_path_template method_and_path make_target
    body_fields target_vars target_var single_field resolve_fields check_stream_type
    resolve_path_to_field_descriptors append_path_to_field_descriptors append_from append_part
    find_field is_literal path_escape path_unescape
conflict = refl

add_route_error_example :
    route_at
      (codes "v1" ∷ [])
      []
      (codes "GET")
      (add_route library find_book title_rule title_routes).0
    ≡ route_at (codes "v1" ∷ []) [] (codes "GET") title_routes
add_route_error_example =
    add_route_error library find_book title_rule
      (already_exists title_target (codes "/v1/*") (codes "GET")) title_routes
      (add_route library find_book title_rule title_routes).0
      (ap (λ x. ((add_route library find_book title_rule title_routes).0, x)) conflict)
      (codes "v1" ∷ []) [] (codes "GET")

literal_v1 : IsCanonicalLiteral (codes "v1")
literal_v1 = record {
  literal_bytes = unfold is_literal in (refl, (refl, tt));
  canonical = unfold canonical_segment path_escape path_unescape is_variable in refl;
}

abbrev title_template : IsTemplate (codes "/v1/*") (title_variable ∷ [])
title_template = record {
  segments = codes "v1" ∷ (codes "*" ∷ []);
  verb = none;
  double_star = false;
  text = refl;
  nonempty = omega arith;
  trail = inl (inr literal_v1, inl (inl refl, refl));
  verb_ok = tt;
  captures = (record { after = omega arith; before = omega arith; ends = omega arith }, tt);
}

canonical_v1 : canonical_segment (codes "v1") ≡ some (codes "v1")
unfolding canonical_segment path_escape path_unescape is_variable
canonical_v1 = refl

Reads-v1 : Reads (codes "v1" ∷ (codes "*" ∷ [])) [] (codes "/v1/x")
Reads-v1 = inr (literal canonical_v1 (star refl done), refl)

add_route-match_example : match (codes "/v1/x") (codes "PUT") title_routes ≢ (none, none)
add_route-match_example =
    add_route-match library find_book title_rule title_target no_routes title_routes added
      (title_variable ∷ []) title_template (codes "/v1/x") (codes "PUT") refl Reads-v1
