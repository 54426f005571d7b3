-- ===== src/Forward/Specs.antt =====
-- forward.go: `Forward`, `ForwardService` and `specFromDescriptor`, the methods that a proxy
-- registers. The handler of such a method calls `forward` with its spec and its types.
use vanguard_go.Fields.Descriptors.{Reflection}
use vanguard_go.Methods.{procedure_from_selector}
use vanguard_go.Methods.Selector.{procedure_from_selector_iff}
use vanguard_go.Methods.Specs.{
  IdempotencyLevel, Method, Spec, SpecLibrary, effective_resolver, message_type, method_from_spec,
  own_resolver, unknown,
}
use vanguard_go.Prelude.{
  Bool, Bytes, Lacks, List, Option, [], false, map, none, refl, some, true, ◌++◌, ◌∷◌, ◌≡◌, ◌≢◌,
}
use vanguard_go.Route.Target.{StreamType, bidi, client, server, unary}

-- The descriptors of a service. `idempotency` is none if the options are not MethodOptions. A
-- schema made from a descriptor is that descriptor.
pub record ServiceLibrary (r : Reflection) (lib : SpecLibrary r) : Type 1 where
  pub methods : SpecLibrary.Service lib → List (SpecLibrary.Descriptor lib)
  pub parent_name : SpecLibrary.Descriptor lib → Bytes
  pub name : SpecLibrary.Descriptor lib → Bytes
  pub is_streaming_client : SpecLibrary.Descriptor lib → Bool
  pub is_streaming_server : SpecLibrary.Descriptor lib → Bool
  pub idempotency : SpecLibrary.Descriptor lib → Option IdempotencyLevel
  pub schema_of : SpecLibrary.Descriptor lib → SpecLibrary.Schema lib
  pub schema_of-descriptor_of :
      (desc : SpecLibrary.Descriptor lib)
      → SpecLibrary.descriptor_of lib (schema_of desc) ≡ some desc

-- StreamTypeClient and StreamTypeServer are or-ed into the type.
unfoldable pub stream_type_of : Bool → Bool → StreamType
stream_type_of false false = unary
stream_type_of true false = client
stream_type_of false true = server
stream_type_of true true = bidi

unfoldable pub level_of : Option IdempotencyLevel → IdempotencyLevel
level_of none = unknown
level_of (some level) = level

module _ (r : Reflection) (lib : SpecLibrary r) (services : ServiceLibrary r lib) where
  open lib use {Schema, Descriptor, Service, MessageType, input, output}
  open services use {
    methods, parent_name, name, is_streaming_client, is_streaming_server, idempotency, schema_of,
  }

  unfoldable pub spec_from_descriptor : Descriptor → Spec Schema
  unfolding stream_type_of level_of
  spec_from_descriptor desc = record {
    schema = schema_of desc;
    procedure = b'/' ∷ (parent_name desc ++ (b'/' ∷ name desc));
    stream_type = stream_type_of (is_streaming_client desc) (is_streaming_server desc);
    idempotency = level_of (idempotency desc);
  }

  -- connect.Method, with what its handler holds.
  pub record Forwarded : Type 0 where
    pub spec : Spec Schema
    pub request_type : MessageType
    pub response_type : MessageType

  unfoldable pub forward_method : Descriptor → Forwarded
  unfolding spec_from_descriptor
  forward_method desc =
      let types = own_resolver r lib desc in
      record {
        spec = spec_from_descriptor desc;
        request_type = message_type r lib types (input desc);
        response_type = message_type r lib types (output desc);
      }

  unfoldable pub forward_service : Service → List Forwarded
  forward_service service = map forward_method (methods service)

  -- A method that a proxy registers is one that routes can serve, with the same types.
  pub record Served (desc : Descriptor) (m : Method r lib) : Type 0 where
    pub read : method_from_spec r lib (Forwarded.spec (forward_method desc)) none ≡ some m
    pub descriptor : m.descriptor ≡ desc
    pub request_kept : m.request_type ≡ Forwarded.request_type (forward_method desc)
    pub response_kept : m.response_type ≡ Forwarded.response_type (forward_method desc)
    pub selected :
        procedure_from_selector (parent_name desc ++ (b'.' ∷ name desc)) ≡ some m.spec.procedure

  -- Without a resolver in the options, `methodFromSpec` reads the spec of a forwarded method back:
  -- it gives the descriptor, and the message types that the proxy itself uses. If the service and
  -- the method have names, and the method's has no '.', a rule of the options selects the method
  -- by its full name.
  pub forward_method-Served :
      (desc : Descriptor)
      → parent_name desc ≢ []
      → name desc ≢ []
      → Lacks b'.' (name desc)
      → (m : Method r lib) × Served desc m
  unfolding forward_method spec_from_descriptor method_from_spec effective_resolver
  forward_method-Served desc service_given name_given plain = (
    record {
      spec = spec_from_descriptor desc;
      descriptor = desc;
      request_type = message_type r lib (own_resolver r lib desc) (input desc);
      response_type = message_type r lib (own_resolver r lib desc) (output desc);
      http_rule = none;
    },
    record {
      read = rw (method_from_spec, services.schema_of-descriptor_of desc) refl;
      descriptor = refl;
      request_kept = refl;
      response_kept = refl;
      selected =
          (procedure_from_selector_iff (parent_name desc ++ (b'.' ∷ name desc)) _).1 (record {
            service = parent_name desc;
            name = name desc;
            parts = refl;
            service_given = service_given;
            name_given = name_given;
            name_plain = plain;
            result = refl;
          });
    },
  )
