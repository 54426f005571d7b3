-- ===== src/Segment/Tests.antt =====
-- The canonical form of a segment, on an escaped slash.
use vanguard_go.Escape.{is_variable, path_escape, path_unescape, single}
use vanguard_go.Prelude.{Bytes, arith, codes, ok, refl, some, ◌≡◌}
use vanguard_go.Segment.{canonical_segment}
use vanguard_go.Segment.Laws.{canonical_segment_idempotent}

abbrev slash_segment : Bytes
slash_segment = codes "a%2fb"

canonical_slash : canonical_segment slash_segment ≡ some (codes "a%2Fb")
unfolding canonical_segment path_unescape path_escape is_variable
canonical_slash = refl

canonical_segment_idempotent_example : canonical_segment (codes "a%2Fb") ≡ some (codes "a%2Fb")
canonical_segment_idempotent_example =
    canonical_segment_idempotent slash_segment (codes "a%2Fb") (omega arith) canonical_slash

decode_lower : path_unescape slash_segment single ≡ ok (codes "a/b")
unfolding path_unescape
decode_lower = refl

decode_upper : path_unescape (codes "%61%2Fb") single ≡ ok (codes "a/b")
unfolding path_unescape
decode_upper = refl
