-- ===== src/Transport/Tests.antt =====
-- A server and a transport with one rule from the options, at concrete inputs.
use vanguard_go.Compression.{add_compressor, add_compressors, get_compressor, new_compressors}
use vanguard_go.Escape.{is_literal, path_escape, path_unescape}
use vanguard_go.Fields.Sample.{library}
use vanguard_go.Fields.{
  append_from, append_part, append_path_to_field_descriptors, find_field,
  resolve_path_to_field_descriptors,
}
use vanguard_go.Methods.{
  Registered, add_binding, add_bindings, attach, attach_embedded, attach_external, check_target,
  find_selected, methods_by_procedure, procedure_from_selector, resolve_methods,
}
use vanguard_go.Methods.Sample.{embeds_none, find_rule, find_spec, schemas}
use vanguard_go.Methods.Specs.{Method, method_from_spec}
use vanguard_go.Prelude.{Bytes, List, [], codes, err, none, ok, refl, some, ◌∷◌, ◌≡◌}
use vanguard_go.Route.Target.{
  add_route, body_fields, check_stream_type, insert_route, make_target, method_and_path,
  resolve_fields, rule_target, single_field, target_var, target_vars,
}
use vanguard_go.Route.Target.Sample.{find_book, title_routes, title_target}
use vanguard_go.Route.Trie.{insert}
use vanguard_go.Template.{parse_path_template}
use vanguard_go.Transport.{
  Mounted, Platform, Setting, Transport, apply_setting, apply_settings, configure, default_options,
  effective_codec, find_send_compressor, mount, new_transport, rpc_method_from_spec, resolve_fresh,
  unknown_send_compression, with_max_read_bytes, with_rules, with_send_compression,
}
use vanguard_go.Transport.Agreement.{resolve_fresh-mount, resolved_as}
use vanguard_go.Transport.Cached.{Transparent, race-Transparent}
use vanguard_go.Transport.Races.{Event, begin, finish, idle, race}

abbrev platform : Platform Unit
platform = record {
  Codec = Bytes;
  Compressor = Bytes;
  BaseUrl = Bytes;
  UrlError = Unit;
  new_json_codec = λ resolver. codes "json";
  codec_name = λ codec. codec;
  gzip = codes "gzip";
  identity = codes "identity";
  name_of = λ c. c;
  parse_url = λ url. ok url;
  host = λ url. url;
}

abbrev settings : List (Setting Bytes Unit Bytes)
settings = with_max_read_bytes 100 ∷ (with_rules (find_rule ∷ []) ∷ [])

abbrev find_entry : Registered library
find_entry = record { method = find_book; http_rule = some title_target }

abbrev mounted : Mounted library schemas platform
mounted = record {
  options = configure library schemas platform settings;
  codec = codes "json";
  compressors = record { by_name = (codes "gzip", codes "gzip") ∷ []; names = codes "gzip" };
  methods = (codes "/library.Books/Find", find_entry) ∷ [];
  routes = title_routes;
}

mounted_ok : mount library schemas platform embeds_none settings (find_spec ∷ []) ≡ ok mounted
unfolding mount configure apply_settings apply_setting default_options effective_codec
    rpc_method_from_spec method_from_spec new_compressors add_compressors add_compressor
    resolve_methods methods_by_procedure attach_external attach_embedded attach add_bindings
    add_binding check_target find_selected procedure_from_selector add_route rule_target
    insert_route insert parse_path_template method_and_path make_target body_fields target_vars
    target_var single_field resolve_fields check_stream_type resolve_path_to_field_descriptors
    append_path_to_field_descriptors append_from append_part find_field is_literal path_escape
    path_unescape
mounted_ok = refl

abbrev find_method : Method library schemas
find_method = record {
  spec = find_spec;
  descriptor = tt;
  request_type = codes "library.Book";
  response_type = codes "library.Author";
  http_rule = none;
}

from_spec :
    method_from_spec library schemas find_spec
      (configure library schemas platform settings).resolver
    ≡ some find_method
unfolding method_from_spec configure apply_settings apply_setting default_options
from_spec = refl

resolve_fresh-mount_example :
    resolve_fresh library schemas platform embeds_none
      (configure library schemas platform settings)
      find_spec
    ≡ resolved_as library schemas platform embeds_none find_method (some title_target)
resolve_fresh-mount_example =
    resolve_fresh-mount library schemas platform embeds_none settings (find_spec ∷ []) mounted
      mounted_ok (codes "/library.Books/Find") find_entry refl find_spec find_method from_spec refl

abbrev transport : Transport library schemas platform
transport = record {
  base_url = codes "https://books";
  options = configure library schemas platform settings;
  codec = codes "json";
  compressors = record { by_name = (codes "gzip", codes "gzip") ∷ []; names = codes "gzip" };
  send_compressor = none;
  methods = [];
}

transport_ok :
    new_transport library schemas platform (codes "https://books") settings ≡ ok transport
unfolding new_transport configure apply_settings apply_setting default_options effective_codec
    new_compressors add_compressors add_compressor find_send_compressor
transport_ok = refl

not_compressed :
    new_transport library schemas platform
      (codes "https://books")
      (with_send_compression (codes "zstd") ∷ [])
    ≡ err (unknown_send_compression (codes "zstd") (codes "gzip"))
unfolding new_transport configure apply_settings apply_setting default_options new_compressors
    add_compressors add_compressor find_send_compressor get_compressor
not_compressed = refl

-- Two calls load before one of them stores, and a third finds what it has stored.
abbrev events : List (Event Unit)
events = begin find_spec ∷ (begin find_spec ∷ (finish 1 ∷ (begin find_spec ∷ [])))

race-Transparent_example : Transparent library schemas platform embeds_none transport events (
    race library schemas platform embeds_none events
      (idle library schemas platform embeds_none transport))
race-Transparent_example =
    race-Transparent library schemas platform embeds_none (λ procedure. find_spec) events transport
      (refl, (refl, (tt, (refl, tt)))) refl
