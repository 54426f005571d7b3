-- ===== src/Segment.antt =====
-- router.go, `canonicalSegment`: the form in which the route trie holds the literals of templates
-- and looks up the segments of a request.
pub mod Laws
mod Tests
use vanguard_go.Escape.{path_escape, path_unescape, single}
use vanguard_go.Prelude.{Bytes, Option, err, none, ok, some}

-- none for false
unfoldable pub canonical_segment : Bytes → Option Bytes
canonical_segment segment = elim (path_unescape segment single) [
  | err _ ↦ none
  | ok unescaped ↦ some (path_escape unescaped single)
]
