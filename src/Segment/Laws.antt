-- ===== src/Segment/Laws.antt =====
-- What the canonical form of a segment is good for.
use vanguard_go.Escape.{path_escape, path_unescape, single}
use vanguard_go.Escape.Bytewise.{IsByte}
use vanguard_go.Escape.Range.{path_unescape-IsByte}
use vanguard_go.Escape.RoundTrip.{unescape-escape-single}
use vanguard_go.Escape.Shape.{IsLiteral, path_escape-IsLiteral}
use vanguard_go.Prelude.{
  All, Bytes, Result-cases, ap, arith, inl, inr, ok, ok-injective, some, sym, ◌↔◌, ◌∙◌, ◌≡◌,
}
use vanguard_go.Segment.{canonical_segment}

canonical_inv :
    (s t : Bytes)
    → canonical_segment s ≡ some t
    → (u : Bytes) × (path_unescape s single ≡ ok u) × (t ≡ path_escape u single)
unfolding canonical_segment
canonical_inv s t h = elim (Result-cases (path_unescape s single)) [
  | inl (u, e) ↦ (u, e, ground arith)
  | inr (x, e) ↦ absurd (ground arith)
]

canonical_segment_of_ok :
    (s u : Bytes)
    → path_unescape s single ≡ ok u
    → canonical_segment s ≡ some (path_escape u single)
unfolding canonical_segment
canonical_segment_of_ok s u e = rw (e, canonical_segment)

-- The escaped form of a text of bytes is its own canonical form.
pub canonical_segment-path_escape :
    (u : Bytes)
    → All IsByte u
    → canonical_segment (path_escape u single) ≡ some (path_escape u single)
canonical_segment-path_escape u b =
    canonical_segment_of_ok (path_escape u single) u (unescape-escape-single u b)

-- The canonical form of a segment of bytes is its own canonical form, so a template literal is
-- found by the lookup of a request segment.
pub canonical_segment_idempotent :
    (s t : Bytes) → All IsByte s → canonical_segment s ≡ some t → canonical_segment t ≡ some t
canonical_segment_idempotent s t b h =
    let (u, e, d) = canonical_inv s t h in
    rw d (canonical_segment-path_escape u (path_unescape-IsByte s u single b e))

-- Two segments that decode have the same canonical form exactly when they decode to the same text.
pub canonical_segment_eq_iff :
    (s t a b : Bytes)
    → All IsByte s
    → All IsByte t
    → path_unescape s single ≡ ok a
    → path_unescape t single ≡ ok b
    → (canonical_segment s ≡ canonical_segment t) ↔ (a ≡ b)
unfolding canonical_segment
canonical_segment_eq_iff s t a b hs ht da db = (to, from)
  where
    escape_injective : path_escape a single ≡ path_escape b single → a ≡ b
    escape_injective e =
        let ra = unescape-escape-single a (path_unescape-IsByte s a single hs da) in
        let rb = unescape-escape-single b (path_unescape-IsByte t b single ht db) in
        ok-injective (sym ra ∙ (ap (λ x. path_unescape x single) e ∙ rb))

    to : canonical_segment s ≡ canonical_segment t → a ≡ b
    to e = escape_injective (ground (arith, da, db, e))

    from : a ≡ b → canonical_segment s ≡ canonical_segment t
    from e =
        canonical_segment_of_ok s a da
        ∙ (ap (λ x. some (path_escape x single)) e ∙ sym (canonical_segment_of_ok t b db))

-- The canonical form of a segment of bytes is a literal of the template grammar, so it is neither
-- "*" nor "**" and holds no '/' or ':'.
pub canonical_segment-IsLiteral :
    (s t : Bytes) → All IsByte s → canonical_segment s ≡ some t → All IsLiteral t
canonical_segment-IsLiteral s t b h =
    let (u, e, d) = canonical_inv s t h in
    rw d (path_escape-IsLiteral u single (path_unescape-IsByte s u single b e))
