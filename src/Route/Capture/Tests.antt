-- ===== src/Route/Capture/Tests.antt =====
-- Runs of `capture`, and of `segmentOffset` past the end of a path.
use vanguard_go.Escape.{path_unescape}
use vanguard_go.Prelude.{Bytes, List, [], arith, codes, err, none, ok, refl, some, ◌<◌, ◌∷◌, ◌≡◌}
use vanguard_go.Prelude.{join, length}
use vanguard_go.Route.Capture.{
  capture, capture_between, index, segment_offset, segment_offset_from, index_byte, slice,
  slice_out_of_range, trim_verb, trim_suffix, unescape_value,
}
use vanguard_go.Route.Capture.Values.{capture-index, value_mode}
use vanguard_go.Template.{PathVariable}
use vanguard_go.Template.Written.{written}

abbrev shelf : PathVariable
shelf = record { field_path = codes "shelf"; start = 1; end_segment = some 3 }

abbrev rest_of_path : PathVariable
rest_of_path = record { field_path = codes "rest"; start = 1; end_segment = none }

capture-shelf : capture shelf (codes "/v1/a%20b/c%2Fd/e") ≡ ok (codes "a b/c%2Fd")
unfolding capture capture_between segment_offset segment_offset_from index_byte slice unescape_value
    path_unescape
capture-shelf = refl

capture_rest : capture rest_of_path (codes "/v1/a/b") ≡ ok (codes "a/b")
unfolding capture capture_between segment_offset segment_offset_from index_byte slice unescape_value
    path_unescape
capture_rest = refl

capture_short : capture rest_of_path (codes "/v1") ≡ err slice_out_of_range
unfolding capture capture_between segment_offset segment_offset_from index_byte slice unescape_value
    path_unescape
capture_short = refl

trim_clear : trim_verb (codes "/v1/*:clear") (codes "/v1/a:b:clear") ≡ ok (codes "/v1/a:b")
unfolding trim_verb trim_suffix slice
trim_clear = refl

abbrev three : List Bytes
three = codes "v1" ∷ (codes "a" ∷ (codes "b" ∷ []))

capture-index_example :
    (vs : List Bytes) × (index shelf three ≡ ok vs)
    × (0 < length vs)
    × (capture shelf (written three) ≡ unescape_value (join vs (codes "/")) (value_mode 1 (some 3)))
capture-index_example = capture-index shelf three (omega arith) (omega arith)
