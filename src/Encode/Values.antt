-- ===== src/Encode/Values.antt =====
-- httprule.go: `httpEncodePathValues` of a message. What `Range` of protobuf gives is a tree: the
-- populated fields in its order, each with its value, its elements if it is a list, and the fields
-- of its message. The query is the list of the calls of `Add`.
use vanguard_go.Encode.{EncodeError, count_of, encode_path}
use vanguard_go.Fields.{resolve_field_descriptors_to_path}
use vanguard_go.Fields.Descriptors.{Reflection}
use vanguard_go.Params.{ParamError, is_message_kind, is_parameter_type}
use vanguard_go.Params.Interface.{Codecs, Messages, Value}
use vanguard_go.Params.Marshal.{get_parameter, marshal_field_value}
use vanguard_go.Prelude.{
  Bool, Bytes, List, Option, Result, [], bytes_eq, codes, drop, err, false, if◌then◌else◌, is_empty,
  length, ltb, map, none, not, ok, some, true, ℕ, ◌+◌, ◌++◌, ◌>>=◌, ◌||◌, ◌∷◌,
}
use vanguard_go.Prelude.Map.{Map, put}
use vanguard_go.Route.Target.{RouteTarget, RouteTargetVar}

mutual
  pub data Contents (F V : Type 0) : Type 0 where
    contents : V → List V → Entries F V → Contents F V

  pub data Entries (F V : Type 0) : Type 0 where
    no_entries : Entries F V
    entry : F → Contents F V → Entries F V → Entries F V

pub data ValuesError (E : Type 0) : Type 0 where
  bad_path : EncodeError (ParamError E) → ValuesError E
  bad_value : ParamError E → ValuesError E
  unexpected_field : Bytes → ValuesError E

-- `fieldPathCounts`, in which the path that is `excluded` has the count -1, and the query.
pub record Encoding : Type 0 where
  pub counts : Map ℕ
  pub excluded : Option Bytes
  pub query : List (Bytes × Bytes)

abbrev pub is_excluded : Bytes → Encoding → Bool
is_excluded path s = elim s.excluded [ none ↦ false | some p ↦ bytes_eq p path ]

-- fieldIndex != 0
abbrev pub is_used : Bytes → Encoding → Bool
is_used path s = is_excluded path s || ltb 0 (count_of path s.counts)

abbrev pub set_count : Bytes → ℕ → Encoding → Encoding
set_count path n s = record s { counts = put path n s.counts }

abbrev pub add_all : Bytes → List Bytes → Encoding → Encoding
add_all key values s = record s { query = s.query ++ map (λ value. (key, value)) values }

module _ (r : Reflection) {E : Type 0} (ms : Messages r) (cs : Codecs ms.Msg ms.Float E)
    (mismatch : ParamError E) where
  abbrev pub Tree : Type 0
  Tree = Entries r.Field (Value ms.Msg ms.Float)

  unfoldable pub marshal_all :
      r.Field → List (Value ms.Msg ms.Float) → Result (ValuesError E) (List Bytes)
  unfolding marshal_field_value
  marshal_all field [] = ok []
  marshal_all field (v ∷ vs) = elim (marshal_field_value r ms cs mismatch field v) [
    | err e ↦ err (bad_value e)
    | ok text ↦ (do texts ← marshal_all field vs; ok (text ∷ texts))
  ]

  -- The case of a list: the elements from the index on.
  unfoldable pub encode_elements :
      List r.Field
      → r.Field
      → List (Value ms.Msg ms.Float)
      → Bytes
      → Encoding
      → Result (ValuesError E) Encoding
  unfolding marshal_all resolve_field_descriptors_to_path
  encode_elements fields field vs path s =
      let n = count_of path s.counts in
      if is_excluded path s then ok s else (do
        texts ← marshal_all field (drop n vs)
        ok (
            set_count path (n + length texts)
              (add_all (resolve_field_descriptors_to_path r fields true) texts s)))

  unfoldable pub encode_value :
      List r.Field
      → r.Field
      → Value ms.Msg ms.Float
      → Bytes
      → Encoding
      → Result (ValuesError E) Encoding
  unfolding marshal_all resolve_field_descriptors_to_path
  encode_value fields field v path s = if is_used path s then ok s else (do
    texts ← marshal_all field (v ∷ [])
    ok (set_count path 1 (add_all (resolve_field_descriptors_to_path r fields true) texts s)))

  -- A field that has no text: its message is gone through, unless it is used.
  abbrev pub cannot_be_encoded : r.Field → Bool
  cannot_be_encoded field =
      r.is_map field || r.is_list field || not (is_message_kind r ms cs (ms.kind field))

  -- `fieldRanger`, on one field and on the fields of a message.
  unfoldable mutual
    unfolding is_parameter_type encode_elements encode_value resolve_field_descriptors_to_path
        is_message_kind

    pub range_field :
        List r.Field
        → r.Field
        → Contents r.Field (Value ms.Msg ms.Float)
        → Encoding
        → Result (ValuesError E) Encoding
    range_field fields field (contents v vs children) s =
        let path = resolve_field_descriptors_to_path r fields false in
        let nested = range_entries fields children s in
        if not (is_parameter_type r ms cs field)
        then (if is_used path s
            then ok s
            else if cannot_be_encoded field
            then err (unexpected_field path)
            else (do s' ← nested; ok (set_count path 1 s')))
        else if r.is_list field
        then encode_elements fields field vs path s
        else encode_value fields field v path s

    pub range_entries : List r.Field → Tree → Encoding → Result (ValuesError E) Encoding
    range_entries fields no_entries s = ok s
    range_entries fields (entry field inner rest) s = do
      s' ← range_field (fields ++ (field ∷ [])) field inner s
      range_entries fields rest s'

  abbrev pub excluded_body : Bytes → Option Bytes
  excluded_body path = if is_empty path then none else some path

  unfoldable pub encode_query_values :
      Bytes → Map ℕ → Tree → Result (ValuesError E) (List (Bytes × Bytes))
  unfolding range_entries
  encode_query_values body counts tree = if bytes_eq body (codes "*") then ok [] else (do
    s ←
        range_entries [] tree
          (record { counts = counts; excluded = excluded_body body; query = [] })
    ok s.query)

  -- `getParameter` for a variable of a target
  abbrev pub variable_value : ms.Msg → RouteTargetVar r → ℕ → Result (ParamError E) Bytes
  variable_value msg v n = get_parameter r ms cs mismatch msg v.fields n

  -- `httpEncodePathValues` of a message whose populated fields are the tree.
  unfoldable pub http_encode_path_values :
      ms.Msg → Tree → RouteTarget r → Result (ValuesError E) (Bytes × List (Bytes × Bytes))
  unfolding encode_path encode_query_values
  http_encode_path_values msg tree target =
      elim (encode_path (λ v. v.variable) (variable_value msg) target.template target.vars) [
        | err e ↦ err (bad_path e)
        | ok (counts, path) ↦ (do
          query ← encode_query_values target.request_body_field_path counts tree
          ok (path, query))
      ]
