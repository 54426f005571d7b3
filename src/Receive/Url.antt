-- ===== src/Receive/Url.antt =====
-- encoding.go, `decodeRequestURL`: the path variables and the query of a request, put into its
-- message. `from_path` and `from_query` say where an error comes from, as its message does; a panic
-- of a slice is an error of the capture.
use vanguard_go.Fields.{PathError, append_path_to_field_descriptors, unknown_field}
use vanguard_go.Fields.Descriptors.{Reflection}
use vanguard_go.Params.{ParamError}
use vanguard_go.Params.Interface.{Codecs, Messages}
use vanguard_go.Params.Marshal.{set_parameter}
use vanguard_go.Prelude.{
  Bool, Bytes, List, Result, [], err, false, if◌then◌else◌, ok, true, ◌&&◌, ◌>>=◌, ◌∷◌,
}
use vanguard_go.Query.{query_values}
use vanguard_go.Route.Capture.{CaptureError, capture, trim_verb}
use vanguard_go.Route.Target.{RouteTarget, RouteTargetVar}

pub data UrlError (E : Type 0) : Type 0 where
  no_path : CaptureError → UrlError E
  not_captured : CaptureError → UrlError E
  from_path : ParamError E → UrlError E
  bad_query : Bytes → PathError → UrlError E
  from_query : Bytes → ParamError E → UrlError E

-- errors.Is(err, errUnknownField)
unfoldable pub is_unknown : PathError → Bool
is_unknown (unknown_field path part) = true
is_unknown _ = false

module _ (r : Reflection) {E : Type 0} (ms : Messages r) (cs : Codecs ms.Msg ms.Float E)
    (mismatch : ParamError E) where
  open ms use {Msg, descriptor}

  -- One round of the loop over the variables, from the path without its verb.
  unfoldable pub decode_variable : Bytes → RouteTargetVar r → Msg → Result (UrlError E) Msg
  unfolding capture set_parameter
  decode_variable path var msg = elim (capture var.variable path) [
    | err e ↦ err (not_captured e)
    | ok value ↦ elim (set_parameter r ms cs mismatch msg var.fields value) [
      | err e ↦ err (from_path e)
      | ok changed ↦ ok changed
    ]
  ]

  -- The loop goes over the variables from the last to the first.
  unfoldable pub decode_variables : Bytes → List (RouteTargetVar r) → Msg → Result (UrlError E) Msg
  decode_variables path [] msg = ok msg
  decode_variables path (var ∷ vars) msg = do
    changed ← decode_variables path vars msg
    decode_variable path var changed

  -- One round of the loop over the query, with the descriptor that the message had at first.
  unfoldable pub decode_query_value :
      Bool → r.Message → Bytes × Bytes → Msg → Result (UrlError E) Msg
  unfolding append_path_to_field_descriptors is_unknown set_parameter
  decode_query_value discard desc (path, value) msg =
      elim (append_path_to_field_descriptors r [] desc path true) [
        | err e ↦ if discard && is_unknown e then ok msg else err (bad_query path e)
        | ok fields ↦ elim (set_parameter r ms cs mismatch msg fields value) [
          | err e ↦ err (from_query path e)
          | ok changed ↦ ok changed
        ]
      ]

  unfoldable pub decode_query :
      Bool → r.Message → List (Bytes × Bytes) → Msg → Result (UrlError E) Msg
  decode_query discard desc [] msg = ok msg
  decode_query discard desc (pair ∷ pairs) msg = do
    changed ← decode_query_value discard desc pair msg
    decode_query discard desc pairs changed

  -- `decodeRequestURL` of a request with this escaped path and raw query.
  unfoldable pub decode_request_url :
      RouteTarget r → Bool → Bytes → Bytes → Msg → Result (UrlError E) Msg
  unfolding trim_verb query_values
  decode_request_url target discard escaped_path raw_query msg =
      elim (trim_verb target.template escaped_path) [
        | err e ↦ err (no_path e)
        | ok path ↦ (do
          changed ← decode_variables path target.vars msg
          decode_query discard (descriptor msg) (query_values raw_query) changed)
      ]
