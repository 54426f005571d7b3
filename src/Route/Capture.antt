-- ===== src/Route/Capture.antt =====
-- router.go, the variables of a matched path: `segmentOffset`, `routeTargetVar.capture`,
-- `routeTargetVar.size` and `routeTargetVar.index`, and `routeTarget.trimVerb`. A slice with bounds
-- out of range is a panic of the source, and an error here.
pub mod Offsets
pub mod Values
mod Tests
use vanguard_go.Escape.{PathEncoding, UnescapeError, multi, path_unescape, single}
use vanguard_go.Prelude.{
  Bool, Bytes, List, Option, Result, [], drop, err, false, if◌then◌else◌, is_empty, leb, length,
  none, ok, some, suc, take, true, zero, ℕ, ◌&&◌, ◌+◌, ◌-◌, ◌==◌, ◌>>=◌, ◌∷◌,
}
use vanguard_go.Route.Verb.{split_verb}
use vanguard_go.Template.{PathVariable}

pub data CaptureError : Type 0 where
  slice_out_of_range : CaptureError
  bad_value : UnescapeError → CaptureError

-- strings.IndexByte, none for -1
unfoldable pub index_byte : Bytes → ℕ → Option ℕ
index_byte [] b = none
index_byte (c ∷ s) b =
    let later = index_byte s b in
    if c == b then some 0 else elim later [ none ↦ none | some i ↦ some (suc i) ]

-- s[from:to] of a string or a slice
unfoldable pub slice : {A : Type 0} → List A → ℕ → ℕ → Result CaptureError (List A)
slice s from to =
    if leb from to && leb to (length s)
    then ok (take (to - from) (drop from s))
    else err slice_out_of_range

-- The loop of `segmentOffset`, with the rounds left.
unfoldable pub segment_offset_from : ℕ → Bytes → ℕ → Result CaptureError ℕ
segment_offset_from zero path offset = ok offset
segment_offset_from (suc index) path offset = do
  rest ← slice path (offset + 1) (length path)
  elim (index_byte rest b'/') [
    | none ↦ ok (length path)
    | some next ↦ segment_offset_from index path (offset + (next + 1))
  ]

unfoldable pub segment_offset : Bytes → ℕ → Result CaptureError ℕ
segment_offset path index = segment_offset_from index path 0

unfoldable pub unescape_value : Bytes → PathEncoding → Result CaptureError Bytes
unescape_value value mode = elim (path_unescape value mode) [
  | ok text ↦ ok text
  | err e ↦ err (bad_value e)
]

-- `capture`, from the start of the variable and its end, none for -1
unfoldable pub capture_between : Bytes → ℕ → Option ℕ → Result CaptureError Bytes
capture_between path from none = do
  start ← segment_offset path from
  value ← slice path (start + 1) (length path)
  unescape_value value multi
capture_between path from (some to) = do
  start ← segment_offset path from
  rest ← slice path start (length path)
  size ← segment_offset rest (to - from)
  value ← slice path (start + 1) (start + size)
  unescape_value value (if to - from == 1 then single else multi)

unfoldable pub capture : PathVariable → Bytes → Result CaptureError Bytes
unfolding capture_between
capture v path = capture_between path v.start v.end_segment

-- `size`, none for -1; a parsed variable does not end before it starts.
unfoldable pub size : PathVariable → Option ℕ
size v = elim v.end_segment [ none ↦ none | some to ↦ some (to - v.start) ]

unfoldable pub index_between : ℕ → Option ℕ → List Bytes → Result CaptureError (List Bytes)
index_between from none segments =
    if leb (length segments) from then ok [] else slice segments from (length segments)
index_between from (some to) segments = slice segments from to

unfoldable pub index : PathVariable → List Bytes → Result CaptureError (List Bytes)
unfolding index_between
index v segments = index_between v.start v.end_segment segments

unfoldable pub trim_suffix : Bytes → Bytes → Result CaptureError Bytes
unfolding slice
trim_suffix verb uri_path =
    if is_empty verb
    then ok uri_path
    else if leb (length verb + 1) (length uri_path)
    then slice uri_path 0 (length uri_path - length verb - 1)
    else err slice_out_of_range

-- `trimVerb` of the target with this template
unfoldable pub trim_verb : Bytes → Bytes → Result CaptureError Bytes
unfolding trim_suffix split_verb
trim_verb template uri_path = trim_suffix (split_verb template).1 uri_path
