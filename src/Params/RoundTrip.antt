-- ===== src/Params/RoundTrip.antt =====
-- Booleans, integers, strings and enum values that are written as parameters are read back, through
-- a message too.
use vanguard_go.Fields.Descriptors.{Reflection}
use vanguard_go.Number.{print_int, print_nat, unmarshal_int, ℤ}
use vanguard_go.Number.Decimal.{InRange, unmarshal_int-print_int, unmarshal_uint-print_nat}
use vanguard_go.Params.{
  ParamError, as_value, half32, half64, limit32, limit64, unmarshal_bool, unmarshal_enum,
  unmarshal_field_value, unmarshal_kind, unmarshal_within,
}
use vanguard_go.Params.Interface.{
  Messages, Codecs, IsLawful, Kind, Value, of_bool, of_int32, of_int64, of_enum, of_uint32,
  of_uint64, of_string, bool_kind, enum_kind, string_kind, int32_kind, sint32_kind, sfixed32_kind,
  int64_kind, sint64_kind, sfixed64_kind, uint32_kind, fixed32_kind, uint64_kind, fixed64_kind,
}
use vanguard_go.Params.Marshal.{
  get_parameter, leaf_value, marshal_enum, marshal_enum_value, marshal_field_value, marshal_json,
  marshal_kind, marshal_string, marshal_within, set_leaf, set_parameter, set_path,
}
use vanguard_go.Prelude.{
  Bool, Bytes, List, Result, [], ap, arith, bind-eq, bytes_eq, codes, err, false, inl, inr, ok,
  ok-injective, refl, some, sym, true, ℕ, ◌++◌, ◌<◌, ◌∙◌, ◌∷◌, ◌≡◌, ◌⊎◌,
}

module _ (r : Reflection) {E : Type 0} (ms : Messages r) (cs : Codecs ms.Msg ms.Float E) where
  open ms use {Msg, Float, kind}

  -- A scalar of a field's kind, other than a float or bytes. The name of an enum's value is found
  -- by the enum again, and json.Unmarshal does not take it for a number.
  pub data IsScalar (field : r.Field) : Value Msg Float → Type 0 where
    a_bool : (b : Bool) → kind field ≡ bool_kind → IsScalar field (of_bool b)
    an_int32 :
        (z : ℤ)
        → (kind field ≡ int32_kind) ⊎ (kind field ≡ sint32_kind) ⊎ (kind field ≡ sfixed32_kind)
        → InRange half32 z
        → IsScalar field (of_int32 z)
    an_int64 :
        (z : ℤ)
        → (kind field ≡ int64_kind) ⊎ (kind field ≡ sint64_kind) ⊎ (kind field ≡ sfixed64_kind)
        → InRange half64 z
        → IsScalar field (of_int64 z)
    a_uint32 :
        (n : ℕ)
        → (kind field ≡ uint32_kind) ⊎ (kind field ≡ fixed32_kind)
        → n < limit32
        → IsScalar field (of_uint32 n)
    a_uint64 :
        (n : ℕ)
        → (kind field ≡ uint64_kind) ⊎ (kind field ≡ fixed64_kind)
        → n < limit64
        → IsScalar field (of_uint64 n)
    a_string : (s : Bytes) → kind field ≡ string_kind → IsScalar field (of_string s)
    an_enum :
        (z : ℤ) (name : Bytes) (e : E)
        → kind field ≡ enum_kind
        → ms.enum_by_number field z ≡ some name
        → ms.enum_by_name field name ≡ some z
        → unmarshal_int (cs.json_int 32) half32 name ≡ err e
        → bytes_eq name (codes "null") ≡ false
        → IsScalar field (of_enum z)

  module _ (mismatch : ParamError E) where
    abbrev unmarshal : Kind → Msg → r.Field → Bytes → Result (ParamError E) (Value Msg Float)
    unmarshal k msg field s = unmarshal_kind r ms cs (unmarshal_within r ms cs 1) k msg field s

    abbrev marshal : Kind → r.Field → Value Msg Float → Result (ParamError E) Bytes
    marshal k field v = marshal_kind r ms cs mismatch (marshal_within r ms cs mismatch 1) k field v

    -- The text of a value, and that it is read as the value.
    record Reads (field : r.Field) (v : Value Msg Float) : Type 0 where
      text : Bytes
      written : marshal_field_value r ms cs mismatch field v ≡ ok text
      read : (msg : Msg) → unmarshal_field_value r ms cs msg field text ≡ ok v

    Reads-of_kind :
        (k : Kind) (field : r.Field) (v : Value Msg Float) (text : Bytes)
        → kind field ≡ k
        → marshal k field v ≡ ok text
        → ((msg : Msg) → unmarshal k msg field text ≡ ok v)
        → Reads field v
    unfolding marshal_field_value marshal_within unmarshal_field_value unmarshal_within
    Reads-of_kind k field v text e w h = record {
      text = text;
      written = rw e w;
      read = λ msg. rw e (h msg);
    }

    enum_written :
        (field : r.Field) (z : ℤ) (name : Bytes)
        → ms.enum_by_number field z ≡ some name
        → marshal enum_kind field (of_enum z) ≡ ok name
    unfolding marshal_kind marshal_enum_value marshal_enum
    enum_written field z name h = rw (h, marshal_enum) refl

    enum_read :
        (msg : Msg) (field : r.Field) (z : ℤ) (name : Bytes) (e : E)
        → ms.enum_by_name field name ≡ some z
        → unmarshal_int (cs.json_int 32) half32 name ≡ err e
        → bytes_eq name (codes "null") ≡ false
        → unmarshal enum_kind msg field name ≡ ok (of_enum z)
    unfolding unmarshal_kind unmarshal_enum
    enum_read msg field z name e by_name no_int no_null = ground (arith, no_int, no_null, by_name)

    scalar-Reads : (field : r.Field) (v : Value Msg Float) → IsScalar field v → Reads field v
    unfolding marshal_kind marshal_json marshal_string unmarshal_kind unmarshal_bool
    scalar-Reads field v (a_bool true k) =
        Reads-of_kind bool_kind field (of_bool true) (codes "true") k refl (λ msg. refl)
    scalar-Reads field v (a_bool false k) =
        Reads-of_kind bool_kind field (of_bool false) (codes "false") k refl (λ msg. refl)
    scalar-Reads field v (an_int32 z ks h) =
        let e =
          ap (as_value r ms cs of_int32) (unmarshal_int-print_int (cs.json_int 32) half32 z h) in
        elim ks [
          | inl k ↦ Reads-of_kind int32_kind field (of_int32 z) (print_int z) k refl (λ msg. e)
          | inr (inl k) ↦
              Reads-of_kind sint32_kind field (of_int32 z) (print_int z) k refl (λ msg. e)
          | inr (inr k) ↦
              Reads-of_kind sfixed32_kind field (of_int32 z) (print_int z) k refl (λ msg. e)
        ]
    scalar-Reads field v (an_int64 z ks h) =
        let e =
          ap (as_value r ms cs of_int64) (unmarshal_int-print_int (cs.json_int 64) half64 z h) in
        elim ks [
          | inl k ↦ Reads-of_kind int64_kind field (of_int64 z) (print_int z) k refl (λ msg. e)
          | inr (inl k) ↦
              Reads-of_kind sint64_kind field (of_int64 z) (print_int z) k refl (λ msg. e)
          | inr (inr k) ↦
              Reads-of_kind sfixed64_kind field (of_int64 z) (print_int z) k refl (λ msg. e)
        ]
    scalar-Reads field v (a_uint32 n ks h) =
        let e =
          ap (as_value r ms cs of_uint32)
            (unmarshal_uint-print_nat (cs.json_uint 32) limit32 n h) in
        elim ks [
          | inl k ↦ Reads-of_kind uint32_kind field (of_uint32 n) (print_nat n) k refl (λ msg. e)
          | inr k ↦ Reads-of_kind fixed32_kind field (of_uint32 n) (print_nat n) k refl (λ msg. e)
        ]
    scalar-Reads field v (a_uint64 n ks h) =
        let e =
          ap (as_value r ms cs of_uint64)
            (unmarshal_uint-print_nat (cs.json_uint 64) limit64 n h) in
        elim ks [
          | inl k ↦ Reads-of_kind uint64_kind field (of_uint64 n) (print_nat n) k refl (λ msg. e)
          | inr k ↦ Reads-of_kind fixed64_kind field (of_uint64 n) (print_nat n) k refl (λ msg. e)
        ]
    scalar-Reads field v (a_string s k) =
        Reads-of_kind string_kind field (of_string s) s k refl (λ msg. refl)
    scalar-Reads field v (an_enum z name e k by_number by_name no_int no_null) =
        Reads-of_kind enum_kind field (of_enum z) name k (enum_written field z name by_number)
          (λ msg. enum_read msg field z name e by_name no_int no_null)

    -- A Boolean, an integer within its limits, a string, or an enum value whose name the enum finds
    -- again and is neither a number nor null, that is written as the text of a parameter, is read as
    -- the same value by a field of its kind. Floats and bytes are left out.
    pub unmarshal-marshal :
        (field : r.Field) (v : Value Msg Float) (msg : Msg) (text : Bytes)
        → IsScalar field v
        → marshal_field_value r ms cs mismatch field v ≡ ok text
        → unmarshal_field_value r ms cs msg field text ≡ ok v
    unmarshal-marshal field v msg text h written =
        let reads = scalar-Reads field v h in
        let same : reads.text ≡ text = ok-injective (sym reads.written ∙ written) in
        rw (← same) (reads.read msg)

    get_parameter-set_path :
        IsLawful r ms
        → (fields : List r.Field) (field : r.Field) (v : Value Msg Float) (msg : Msg) (text : Bytes)
          (index : ℕ)
        → r.is_list field ≡ false
        → IsScalar field v
        → marshal_field_value r ms cs mismatch field v ≡ ok text
        → (changed : Msg) × (set_path r ms cs mismatch msg (fields ++ (field ∷ [])) text
            ≡ ok changed)
          × (get_parameter r ms cs mismatch changed (fields ++ (field ∷ [])) index ≡ ok text)
    unfolding set_path set_leaf get_parameter leaf_value
    get_parameter-set_path lawful [] field v msg text index single h written =
        let read = unmarshal-marshal field v msg text h written in
        (
          ms.set msg field v,
          rw (read, single, set_leaf) refl,
          rw (single, lawful.get-set msg field v, leaf_value) written,
        )
    get_parameter-set_path lawful (f ∷ []) field v msg text index single h written =
        let (changed, set, got) =
          get_parameter-set_path lawful [] field v (ms.child msg f) text index single h written in
        (
          ms.with_child msg f changed,
          bind-eq _ changed set refl,
          rw (lawful.child-with_child msg f changed) got,
        )
    get_parameter-set_path lawful (f ∷ (g ∷ fields)) field v msg text index single h written =
        let (changed, set, got) =
          get_parameter-set_path lawful (g ∷ fields) field v (ms.child msg f) text index single h
            written in
        (
          ms.with_child msg f changed,
          rw (set, set_path) refl,
          rw (lawful.child-with_child msg f changed) got,
        )

    -- Over lawful messages, a parameter that is the text of a Boolean, of an integer within its
    -- limits, of a string, or of an enum value whose name the enum finds again and is neither a number
    -- nor null, set at a path of fields whose last is no list, is set without an error, and got back
    -- from the changed message. Floats and bytes are left out.
    pub get_parameter-set_parameter :
        IsLawful r ms
        → (fields : List r.Field) (field : r.Field) (v : Value Msg Float) (msg : Msg) (text : Bytes)
          (index : ℕ)
        → r.is_list field ≡ false
        → IsScalar field v
        → marshal_field_value r ms cs mismatch field v ≡ ok text
        → (changed : Msg) × (set_parameter r ms cs mismatch msg (fields ++ (field ∷ [])) text
            ≡ ok changed)
          × (get_parameter r ms cs mismatch changed (fields ++ (field ∷ [])) index ≡ ok text)
    unfolding set_parameter
    get_parameter-set_parameter lawful fields field v msg text index single h written =
        let (changed, set, got) =
          get_parameter-set_path lawful fields field v msg text index single h written in
        (changed, rw (set, set_parameter) refl, got)
