-- ===== src/Route/Verb.antt =====
-- router.go, `splitVerb`.
pub mod Laws
mod Tests
use vanguard_go.Prelude.{Bytes, [], cut_last, none, some, ◌++◌, ◌∷◌}

-- The segment behind the last '/', split at its last ':'; `before` is what stands before it.
unfoldable pub split_segment : Bytes → Bytes → Bytes → Bytes × Bytes
split_segment uri_path before segment = elim (cut_last b':' segment) [
  | some (value, verb) ↦ (before ++ value, verb)
  | none ↦ (uri_path, [])
]

-- the path and the verb
unfoldable pub split_verb : Bytes → Bytes × Bytes
unfolding split_segment
split_verb uri_path = elim (cut_last b'/' uri_path) [
  | some (front, segment) ↦ split_segment uri_path (front ++ b'/' ∷ []) segment
  | none ↦ split_segment uri_path [] uri_path
]
