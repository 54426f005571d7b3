-- ===== src/Encode/Whole.antt =====
-- The path of a whole request.
use vanguard_go.Encode.{encode_path, fill_variables, template_segments, verb_suffix, EncodeError}
use vanguard_go.Encode.Filled.{Filled}
use vanguard_go.Encode.Placed.{HasBytes, IsLast, Stands, fill_variables-Stands}
use vanguard_go.Encode.Values.{Tree, encode_query_values, http_encode_path_values, variable_value}
use vanguard_go.Fields.Descriptors.{Reflection}
use vanguard_go.Params.{ParamError}
use vanguard_go.Params.Interface.{Codecs, Messages}
use vanguard_go.Prelude.{
  All, Bytes, List, Result, Result-cases, [], arith, inl, inr, length, ok, subst, sym, ℕ, ◌++◌, ◌≡◌,
  ◌≤◌, ◌⊎◌,
}
use vanguard_go.Prelude.Map.{Map}
use vanguard_go.Route.Target.{RouteTarget, RouteTargetVar}
use vanguard_go.Route.Verb.{split_verb}
use vanguard_go.Template.Written.{written}

module _ (r : Reflection) {E : Type 0} (ms : Messages r) (cs : Codecs ms.Msg ms.Float E)
    (mismatch : ParamError E) (msg : ms.Msg) where
  abbrev parameter : RouteTargetVar r → ℕ → Result (ParamError E) Bytes
  parameter = variable_value r ms cs mismatch msg

  -- The path is filled segments, and the verb of the template. Segments behind those of the template
  -- are of the value of a variable that ends the path.
  pub record IsFilledPath (target : RouteTarget r) (ss : List Bytes) (path : Bytes) : Type 0 where
    pub segments : List Bytes
    pub is_path : path ≡ written segments ++ verb_suffix (split_verb target.template).1
    pub filled : Filled ss segments
    pub stands : All (Stands (λ v. v.variable) parameter segments) target.vars
    pub ends :
        (length segments ≡ length ss) ⊎ IsLast (λ v. v.variable) parameter segments target.vars

  encode_path-IsFilledPath :
      (target : RouteTarget r) (ss : List Bytes) (counts : Map ℕ) (path : Bytes)
      → ◌≡◌ {A = Result (EncodeError (ParamError E)) (List Bytes)}
          (template_segments (split_verb target.template).0)
          (ok ss)
      → All (HasBytes (λ v. v.variable) parameter) target.vars
      → All (λ v. v.variable.start ≤ length ss) target.vars
      → encode_path (λ v. v.variable) parameter target.template target.vars ≡ ok (counts, path)
      → IsFilledPath target ss path
  unfolding encode_path
  encode_path-IsFilledPath target ss counts path cut t within e =
      let verb = (split_verb target.template).1 in
      elim (Result-cases (fill_variables (λ v. v.variable) parameter target.vars [] ss)) [
        | inr (x, k) ↦ absurd (ground (arith, cut, k, e))
        | inl ((c, ys), k) ↦
            let same : written ys ++ verb_suffix verb ≡ path = ground (arith, cut, k, e) in
            let (filled, stands, ends) =
              fill_variables-Stands (λ v. v.variable) parameter target.vars [] c ss ys t within k in
            record {
              segments = ys;
              is_path = sym same;
              filled = filled;
              stands = stands;
              ends = ends;
            }
      ]

  -- When the values of a message are texts of bytes and the template of a target has the segments
  -- `ss`, behind which no variable starts, then the path that the client writes for the message is
  -- the text of segments and the verb of the template. In these segments the literals of `ss` stand
  -- where they stood, every variable's value stands escaped at the variable's place, and it has as
  -- many parts as the variable has segments, if that is bounded. There are as many segments as in
  -- `ss`, or the parts of a variable's value end them.
  pub http_encode_path_values-IsFilledPath :
      (tree : Tree r ms cs mismatch) (target : RouteTarget r) (ss : List Bytes) (path : Bytes)
      (query : List (Bytes × Bytes))
      → ◌≡◌ {A = Result (EncodeError (ParamError E)) (List Bytes)}
          (template_segments (split_verb target.template).0)
          (ok ss)
      → All (HasBytes (λ v. v.variable) parameter) target.vars
      → All (λ v. v.variable.start ≤ length ss) target.vars
      → http_encode_path_values r ms cs mismatch msg tree target ≡ ok (path, query)
      → IsFilledPath target ss path
  unfolding http_encode_path_values
  http_encode_path_values-IsFilledPath tree target ss path query cut t within e =
      elim (Result-cases (encode_path (λ v. v.variable) parameter target.template target.vars)) [
        | inr (x, k) ↦ absurd (ground (arith, k, e))
        | inl ((counts, p), k) ↦
            elim (Result-cases
              (encode_query_values r ms cs mismatch target.request_body_field_path counts tree)) [
                | inr (x, m) ↦ absurd (ground (arith, k, m, e))
                | inl (q, m) ↦
                    let same : p ≡ path = ground (arith, k, m, e) in
                    subst (IsFilledPath target ss) same
                      (encode_path-IsFilledPath target ss counts p cut t within k)
              ]
      ]
