-- ===== src/Template/Tests.antt =====
-- Runs of the template parser, from path_parser_test.go.
use vanguard_go.Escape.{is_literal, path_escape, path_unescape}
use vanguard_go.Prelude.{Option, String, [], codes, err, ok, refl, some, ℕ, ◌∷◌, ◌≡◌}
use vanguard_go.Template.{PathVariable, double_star_not_last, parse_path_template}
use vanguard_go.Template.Canonical.{IsTemplate, parse_path_template-IsTemplate}

abbrev capture_of : String → ℕ → Option ℕ → PathVariable
capture_of name start end_segment = record {
  field_path = codes name;
  start = start;
  end_segment = end_segment;
}

parse_book :
    parse_path_template (codes "/v1/{name=shelves/*/books/*}:read")
    ≡ ok (codes "/v1/shelves/*/books/*:read", capture_of "name" 1 (some 5) ∷ [])
unfolding parse_path_template is_literal path_escape path_unescape
parse_book = refl

parse_late_star : parse_path_template (codes "/a/**/b") ≡ err double_star_not_last
unfolding parse_path_template is_literal path_escape path_unescape
parse_late_star = refl

parse_nested :
    parse_path_template (codes "/{a=x/{a}}")
    ≡ ok (codes "/x/*", capture_of "a" 1 (some 2) ∷ (capture_of "a" 0 (some 2) ∷ []))
unfolding parse_path_template is_literal path_escape path_unescape
parse_nested = refl

parse_path_template-IsTemplate_example :
    IsTemplate (codes "/v1/shelves/*/books/*:read") (capture_of "name" 1 (some 5) ∷ [])
parse_path_template-IsTemplate_example =
    parse_path_template-IsTemplate (codes "/v1/{name=shelves/*/books/*}:read")
      (codes "/v1/shelves/*/books/*:read") (capture_of "name" 1 (some 5) ∷ []) parse_book
