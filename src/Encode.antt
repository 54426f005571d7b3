-- ===== src/Encode.antt =====
-- httprule.go, the path of a client's request: `httpSplitVar`, and `httpEncodePathValues` up to its
-- query. The value of a variable at an index is a parameter here, which `getParameter` of Params
-- is. The text of an error is its data.
pub mod Filled
pub mod Placed
pub mod Captured
pub mod Values
pub mod Whole
mod Tests
use vanguard_go.Escape.{multi, path_escape, single}
use vanguard_go.Prelude.{
  Bool, Bytes, List, Option, Result, [], bytes_eq, codes, err, false, if◌then◌else◌, is_empty,
  length, ltb, map, none, not, ok, some, split, suc, true, zero, ℕ, ◌&&◌, ◌+◌, ◌++◌, ◌==◌, ◌>>=◌,
  ◌||◌, ◌∷◌,
}
use vanguard_go.Prelude.Map.{Map, get, put}
use vanguard_go.Route.Capture.{size}
use vanguard_go.Route.Verb.{split_verb}
use vanguard_go.Template.{PathVariable}
use vanguard_go.Template.Written.{written}

-- `missing_root` is the panic of the slice of an empty template.
pub data EncodeError (E : Type 0) : Type 0 where
  bad_parameter : E → EncodeError E
  pattern_mismatch : Bytes → Bytes → EncodeError E
  missing_root : EncodeError E

unfoldable pub http_split_var : Bytes → Bool → List Bytes
http_split_var variable several =
    if not several
    then path_escape variable single ∷ []
    else map (λ value. path_escape value multi) (split variable b'/')

abbrev pub is_wildcard : Bytes → Bool
is_wildcard segment = bytes_eq segment (codes "*") || bytes_eq segment (codes "**")

abbrev pub cons_some : Bytes → Option (List Bytes) → Option (List Bytes)
cons_some segment none = none
cons_some segment (some segments) = some (segment ∷ segments)

-- One round of the loop over the parts, none for the error.
unfoldable pub place : ℕ → Bytes → List Bytes → Option (List Bytes)
place index part [] = some (part ∷ [])
place zero part (segment ∷ segments) =
    if is_wildcard segment
    then some (part ∷ segments)
    else if bytes_eq segment part
    then some (segment ∷ segments)
    else none
place (suc index) part (segment ∷ segments) = cons_some segment (place index part segments)

unfoldable pub place_all : ℕ → List Bytes → List Bytes → Option (List Bytes)
unfolding place
place_all index [] segments = some segments
place_all index (part ∷ parts) segments = elim (place index part segments) [
  | none ↦ none
  | some placed ↦ place_all (suc index) parts placed
]

-- A bounded variable of several segments has a part for each.
unfoldable pub is_misfit : Option ℕ → List Bytes → Bool
is_misfit none values = false
is_misfit (some width) values = ltb 1 width && not (length values == width)

abbrev pub is_single : Option ℕ → Bool
is_single none = false
is_single (some width) = width == 1

-- How often each field path is used.
abbrev pub count_of : Bytes → Map ℕ → ℕ
count_of path counts = elim (get path counts) [ none ↦ 0 | some n ↦ n ]

-- The segments of a template, without its verb.
unfoldable pub template_segments : {E : Type 0} → Bytes → Result (EncodeError E) (List Bytes)
template_segments [] = err missing_root
template_segments (_ ∷ template_path) = ok (split template_path b'/')

abbrev pub verb_suffix : Bytes → Bytes
verb_suffix verb = if is_empty verb then [] else b':' ∷ verb

module _ {V E : Type 0} (variable_of : V → PathVariable) (parameter : V → ℕ → Result E Bytes) where
  unfoldable pub fit : PathVariable → Bytes → List Bytes → Result (EncodeError E) (List Bytes)
  unfolding http_split_var is_misfit place_all size
  fit v value segments =
      let values = http_split_var value (not (is_single (size v))) in
      if is_misfit (size v) values
      then err (pattern_mismatch v.field_path value)
      else elim (place_all v.start values segments) [
        | none ↦ err (pattern_mismatch v.field_path value)
        | some filled ↦ ok filled
      ]

  -- The loop over the variables of the target.
  unfoldable pub fill_variables :
      List V → Map ℕ → List Bytes → Result (EncodeError E) (Map ℕ × List Bytes)
  unfolding fit
  fill_variables [] counts segments = ok (counts, segments)
  fill_variables (v ∷ vars) counts segments =
      let path = (variable_of v).field_path in
      let n = count_of path counts in
      elim (parameter v n) [
        | err e ↦ err (bad_parameter e)
        | ok value ↦ elim (fit (variable_of v) value segments) [
          | err e ↦ err e
          | ok filled ↦ fill_variables vars (put path (n + 1) counts) filled
        ]
      ]

  -- The path, and the counts with which the query goes on.
  unfoldable pub encode_path : Bytes → List V → Result (EncodeError E) (Map ℕ × Bytes)
  unfolding split_verb template_segments fill_variables
  encode_path template vars =
      let (template_path, verb) = split_verb template in
      (do
        segments ← template_segments template_path
        (counts, filled) ← fill_variables vars [] segments
        ok (counts, written filled ++ verb_suffix verb))
