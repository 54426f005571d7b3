-- ===== src/Route/Trie/Covers.antt =====
-- When the segments of a template cover the segments of a request path, and which of two templates
-- that cover one path comes first: the independent description of `findTarget`.
use vanguard_go.Prelude.{Bytes, List, [], codes, some, ◌∷◌, ◌≡◌, ◌⊎◌}
use vanguard_go.Segment.{canonical_segment}

-- A literal covers a segment of the same canonical form, "*" covers any one segment, and a final
-- "**" covers all that are left, one at least.
pub data Covers : List Bytes → List Bytes → Type 0 where
  done : Covers [] []
  literal :
      {l u : Bytes} {ts us : List Bytes}
      → canonical_segment u ≡ some l
      → Covers ts us
      → Covers (l ∷ ts) (u ∷ us)
  star :
      {s u : Bytes} {ts us : List Bytes} → s ≡ codes "*" → Covers ts us → Covers (s ∷ ts) (u ∷ us)
  double_star : {s u : Bytes} {us : List Bytes} → s ≡ codes "**" → Covers (s ∷ []) (u ∷ us)

-- At the first segment where two templates differ, the first has a literal of the path where the
-- second has a wildcard, or "*" where the second has "**"; or they do not differ.
pub data Precedes : List Bytes → List Bytes → List Bytes → Type 0 where
  equal_to : {us ts : List Bytes} → Precedes us ts ts
  later :
      {s u : Bytes} {us ts ts' : List Bytes}
      → Precedes us ts ts'
      → Precedes (u ∷ us) (s ∷ ts) (s ∷ ts')
  literal_first :
      {l s u : Bytes} {us ts ts' : List Bytes}
      → canonical_segment u ≡ some l
      → (s ≡ codes "*") ⊎ (s ≡ codes "**")
      → Precedes (u ∷ us) (l ∷ ts) (s ∷ ts')
  star_first :
      {s s' u : Bytes} {us ts ts' : List Bytes}
      → s ≡ codes "*"
      → s' ≡ codes "**"
      → Precedes (u ∷ us) (s ∷ ts) (s' ∷ ts')
