-- ===== src/Methods/Specs.antt =====
-- method.go, `methodFromSpec` and `messageType`. Schemas, descriptors and registries belong to
-- connect and protobuf; `resolver_for_service` is resolverForService of type_resolver.go, whose
-- lookups are those of the registries.
use vanguard_go.Fields.Descriptors.{Reflection}
use vanguard_go.Prelude.{Bytes, Option, none, some}
use vanguard_go.Route.Target.{RouteTarget, RpcMethod, StreamType}

-- `descriptor_of` is the test that a schema is a MethodDescriptor, `service_of` the one that its
-- parent is a ServiceDescriptor.
pub record SpecLibrary (r : Reflection) : Type 1 where
  pub Schema : Type 0
  pub Descriptor : Type 0
  pub Service : Type 0
  pub Resolver : Type 0
  pub MessageType : Type 0
  pub descriptor_of : Schema → Option Descriptor
  pub service_of : Descriptor → Option Service
  pub input : Descriptor → Reflection.Message r
  pub output : Descriptor → Reflection.Message r
  pub global_types : Resolver
  pub resolver_for_service : Service → Resolver
  pub find_message_by_name : Resolver → Bytes → Option MessageType
  pub dynamic_type : Reflection.Message r → MessageType

-- connect.IdempotencyLevel
pub data IdempotencyLevel : Type 0 where
  unknown no_side_effects idempotent : IdempotencyLevel

-- connect.Spec
pub record Spec (S : Type 0) : Type 0 where
  pub schema : S
  pub procedure : Bytes
  pub stream_type : StreamType
  pub idempotency : IdempotencyLevel

module _ (r : Reflection) (lib : SpecLibrary r) where
  open r use {Message, full_name}
  open lib use {
    Schema, Descriptor, Resolver, MessageType, descriptor_of, service_of, input, output,
    global_types, resolver_for_service, find_message_by_name, dynamic_type,
  }

  -- The `method` of the source.
  pub record Method : Type 0 where
    pub spec : Spec Schema
    pub descriptor : Descriptor
    pub request_type : MessageType
    pub response_type : MessageType
    pub http_rule : Option (RouteTarget r)

  -- What the routes use of a method.
  abbrev pub rpc_method : Method → RpcMethod r
  rpc_method m = record {
    procedure = m.spec.procedure;
    stream_type = m.spec.stream_type;
    input = input m.descriptor;
    output = output m.descriptor;
  }

  unfoldable pub message_type : Resolver → Message → MessageType
  message_type resolver desc = elim (find_message_by_name resolver (full_name desc)) [
    | some found ↦ found
    | none ↦ dynamic_type desc
  ]

  -- The resolver of a spec whose options name none.
  unfoldable pub own_resolver : Descriptor → Resolver
  own_resolver desc = elim (service_of desc) [
    | some service ↦ resolver_for_service service
    | none ↦ global_types
  ]

  unfoldable pub effective_resolver : Option Resolver → Descriptor → Resolver
  unfolding own_resolver
  effective_resolver none desc = own_resolver desc
  effective_resolver (some resolver) desc = resolver

  unfoldable pub method_from_spec : Spec Schema → Option Resolver → Option Method
  unfolding message_type effective_resolver
  method_from_spec spec resolver = elim (descriptor_of spec.schema) [
    | none ↦ none
    | some desc ↦
        let types = effective_resolver resolver desc in
        some (record {
          spec = spec;
          descriptor = desc;
          request_type = message_type types (input desc);
          response_type = message_type types (output desc);
          http_rule = none;
        })
  ]
