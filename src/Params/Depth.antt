-- ===== src/Params/Depth.antt =====
-- Two rounds of `unmarshalFieldValue` and `marshalFieldValue` are enough, since the value field of
-- a wrapper message is a scalar.
use vanguard_go.Fields.Descriptors.{Reflection}
use vanguard_go.Params.{
  ParamError, is_named, unmarshal_field_value, unmarshal_field_wkt, unmarshal_kind, unmarshal_named,
  unmarshal_within, well_known_name,
}
use vanguard_go.Params.Interface.{Codecs, Kind, Messages, Value, group_kind, message_kind}
use vanguard_go.Prelude.{
  [], Bool, Bool-cases, Bytes, Option-cases, Result, arith, codes, false, inl, inr, refl, some, suc,
  true, ℕ, ◌∷◌, ◌≡◌,
}

-- A kind that has no message.
abbrev pub is_scalar : Kind → Bool
is_scalar message_kind = false
is_scalar group_kind = false
is_scalar _ = true

module _ (r : Reflection) {E : Type 0} (ms : Messages r) (cs : Codecs ms.Msg ms.Float E)
    (wrapped : (msg : ms.Msg) (field sub : r.Field) (name : Bytes)
      → well_known_name r ms cs field ≡ some name
      → is_named name (codes "DoubleValue" ∷ (codes "FloatValue" ∷ [])) ≡ true
      → r.by_name (ms.descriptor (ms.new_child msg field)) (codes "value") ≡ some sub
      → is_scalar (ms.kind sub) ≡ true) where
  abbrev Again : Type 0
  Again = ms.Msg → r.Field → Bytes → Result (ParamError E) (Value ms.Msg ms.Float)

  -- A scalar is read in one round.
  one_round :
      (f g : Again) (k : Kind) (msg : ms.Msg) (field : r.Field) (s : Bytes)
      → is_scalar k ≡ true
      → unmarshal_kind r ms cs f k msg field s ≡ unmarshal_kind r ms cs g k msg field s
  unfolding unmarshal_kind
  one_round f g message_kind msg field s h = absurd (ground (arith, h))
  one_round f g group_kind msg field s h = absurd (ground (arith, h))
  one_round f g _ msg field s h = refl

  Agrees : Again → Again → Type 0
  Agrees f g =
      (msg : ms.Msg) (sub : r.Field) (s : Bytes)
      → is_scalar (ms.kind sub) ≡ true
      → f msg sub s ≡ g msg sub s

  named_round :
      (f g : Again) (msg : ms.Msg) (field : r.Field) (name s : Bytes)
      → well_known_name r ms cs field ≡ some name
      → Agrees f g
      → unmarshal_named r ms cs f msg field name s ≡ unmarshal_named r ms cs g msg field name s
  unfolding unmarshal_named Agrees
  named_round f g msg field name s known h =
      elim (Bool-cases (is_named name (codes "DoubleValue" ∷ (codes "FloatValue" ∷ [])))) [
        | inr n ↦ ground (arith, n)
        | inl y ↦
            elim (Option-cases
              (r.by_name (ms.descriptor (ms.new_child msg field)) (codes "value"))) [
                | inl k ↦ ground (arith, y, k)
                | inr (sub, k) ↦
                    let e =
                      h (ms.new_child msg field) sub s (wrapped msg field sub name known y k) in
                    ground (arith, y, k, e)
              ]
      ]

  wkt_round :
      (f g : Again) (msg : ms.Msg) (field : r.Field) (s : Bytes)
      → Agrees f g
      → unmarshal_field_wkt r ms cs f msg field s ≡ unmarshal_field_wkt r ms cs g msg field s
  unfolding unmarshal_field_wkt
  wkt_round f g msg field s h = elim (Option-cases (well_known_name r ms cs field)) [
    | inl k ↦ ground (arith, k)
    | inr (name, k) ↦ let e = named_round f g msg field name s k h in ground (arith, k, e)
  ]

  any_kind :
      (f g : Again) (k : Kind) (msg : ms.Msg) (field : r.Field) (s : Bytes)
      → Agrees f g
      → unmarshal_kind r ms cs f k msg field s ≡ unmarshal_kind r ms cs g k msg field s
  unfolding unmarshal_kind
  any_kind f g message_kind msg field s h = wkt_round f g msg field s h
  any_kind f g group_kind msg field s h = wkt_round f g msg field s h
  any_kind f g _ msg field s h = refl

  -- When the value field of a DoubleValue or FloatValue is a scalar, as it is, more rounds than two
  -- read no parameter differently: the model of `unmarshalFieldValue` never stops for want of
  -- depth.
  pub unmarshal_field_value-unmarshal_within :
      (more : ℕ) (msg : ms.Msg) (field : r.Field) (s : Bytes)
      → unmarshal_field_value r ms cs msg field s
        ≡ unmarshal_within r ms cs (suc (suc more)) msg field s
  unfolding unmarshal_field_value unmarshal_within Agrees
  unmarshal_field_value-unmarshal_within more msg field s =
      any_kind (unmarshal_within r ms cs 1) (unmarshal_within r ms cs (suc more)) (ms.kind field)
        msg field s
        (λ m sub t h.
          one_round (unmarshal_within r ms cs 0) (unmarshal_within r ms cs more) (ms.kind sub) m sub
            t h)
