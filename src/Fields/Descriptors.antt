-- ===== src/Fields/Descriptors.antt =====
-- What the source uses of the message and field descriptors of the package protoreflect.
use vanguard_go.Prelude.{Bool, Bytes, Option, some, ◌≡◌}

-- `message_of` is Message(), none for nil; `is_repeated` is Cardinality() == Repeated, which holds
-- of lists and maps. A field that a lookup by name finds has that name.
pub record Reflection : Type 1 where
  pub Message : Type 0
  pub Field : Type 0
  pub by_name : Message → Bytes → Option Field
  pub by_json_name : Message → Bytes → Option Field
  pub name : Field → Bytes
  pub json_name : Field → Bytes
  pub is_repeated : Field → Bool
  pub is_list : Field → Bool
  pub is_map : Field → Bool
  pub message_of : Field → Option Message
  pub full_name : Message → Bytes
  pub by_name-name :
      (msg : Message) (part : Bytes) (field : Field)
      → by_name msg part ≡ some field
      → name field ≡ part
  pub by_json_name-json_name :
      (msg : Message) (part : Bytes) (field : Field)
      → by_json_name msg part ≡ some field
      → json_name field ≡ part
