-- ===== src/Route/Target/Sample.antt =====
-- A rule for a book of the sample schema: its target, and the trie with it.
use vanguard_go.Fields.{
  append_from, append_part, append_path_to_field_descriptors, find_field,
  resolve_path_to_field_descriptors,
}
use vanguard_go.Fields.Sample.{author, book, library, title}
use vanguard_go.Prelude.{[], codes, none, some, ◌∷◌}
use vanguard_go.Route.Target.{Binding, RouteTarget, RpcMethod, add_route, get, unary}
use vanguard_go.Route.Trie.{Trie, empty_trie}
use vanguard_go.Template.{PathVariable}

abbrev pub find_book : RpcMethod library
find_book = record {
  procedure = codes "/library.Books/Find";
  stream_type = unary;
  input = book;
  output = author;
}

abbrev pub title_rule : Binding
title_rule = record {
  pattern = get (codes "/v1/{title}");
  body = [];
  response_body = codes "full_name";
}

abbrev pub title_variable : PathVariable
title_variable = record { field_path = codes "title"; start = 1; end_segment = some 2 }

abbrev pub title_target : RouteTarget library
title_target = record {
  method = find_book;
  http_method = codes "GET";
  template = codes "/v1/*";
  pattern = codes "GET /v1/{title}";
  request_body_field_path = [];
  request_body_fields = none;
  response_body_field_path = codes "full_name";
  response_body_fields = some (vanguard_go.Fields.Sample.full_name ∷ []);
  vars = record { variable = title_variable; fields = title ∷ [] } ∷ [];
  unsupported = none;
}

abbrev pub no_routes : Trie (RouteTarget library)
no_routes = empty_trie

abbrev pub title_routes : Trie (RouteTarget library)
title_routes = (add_route library find_book title_rule no_routes).0
