-- ===== src/Methods/Sample.antt =====
-- Specs of the sample schema, and a rule from the options.
use vanguard_go.Fields.Sample.{author, book, library}
use vanguard_go.Methods.{HttpRule}
use vanguard_go.Methods.Specs.{Spec, SpecLibrary, no_side_effects}
use vanguard_go.Prelude.{Bytes, Option, [], codes, none, some}
use vanguard_go.Route.Target.{RpcMethod, unary}
use vanguard_go.Route.Target.Sample.{title_rule}

-- Every schema has the descriptor of the sample method.
abbrev pub schemas : SpecLibrary library
schemas = record {
  Schema = Unit;
  Descriptor = Unit;
  Service = Unit;
  Resolver = Unit;
  MessageType = Bytes;
  descriptor_of = λ s. some tt;
  service_of = λ d. none;
  input = λ d. book;
  output = λ d. author;
  global_types = tt;
  resolver_for_service = λ s. tt;
  find_message_by_name = λ resolver name. some name;
  dynamic_type = λ m. [];
}

abbrev pub embeds_none : RpcMethod library → Option HttpRule
embeds_none method = none

abbrev pub find_rule : HttpRule
find_rule = record {
  selector = codes "library.Books.Find";
  primary = title_rule;
  additional_bindings = [];
}

abbrev pub find_spec : Spec Unit
find_spec = record {
  schema = tt;
  procedure = codes "/library.Books/Find";
  stream_type = unary;
  idempotency = no_side_effects;
}
