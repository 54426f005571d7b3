-- ===== src/Template/Literal.antt =====
-- `parseLiteral` and `parseFieldPath`: where they move, and what they return.
use vanguard_go.Escape.{is_literal, is_variable, path_unescape, single}
use vanguard_go.Escape.Bytewise.{IsByte}
use vanguard_go.Escape.Shape.{IsLiteral}
use vanguard_go.Prelude.{
  All, All-imp, Bool-cases, Bytes, Result-cases, [], ap, arith, false, inl, inr, is_empty, length,
  length-append, ok, refl, some, true, ℕ, ◌<◌, ◌∷◌, ◌≡◌,
}
use vanguard_go.Segment.{canonical_segment}
use vanguard_go.Segment.Laws.{canonical_segment-IsLiteral, canonical_segment_idempotent}
use vanguard_go.Template.{PathParser, advance, consume_run, finish_literal, parse_literal, span}
use vanguard_go.Template.Steps.{Moves, span-All, span-append}

-- A literal of the canonical template: unreserved bytes and escapes, in canonical form.
pub record IsCanonicalLiteral (literal : Bytes) : Type 0 where
  pub literal_bytes : All IsLiteral literal
  pub canonical : canonical_segment literal ≡ some literal

is_literal-IsByte : (c : ℕ) → is_literal c ≡ true → IsByte c
unfolding is_literal
is_literal-IsByte c h = unfold is_variable in ground arith

finish_literal-ok :
    (start : ℕ) (run t : Bytes) (p q : PathParser)
    → finish_literal start run p ≡ ok (t, q)
    → (is_empty run ≡ false) × (canonical_segment run ≡ some t) × (q ≡ p)
unfolding finish_literal canonical_segment
finish_literal-ok start run t p q h = elim (Bool-cases (is_empty run)) [
  | inl e ↦ absurd (ground arith)
  | inr e ↦ elim (Result-cases (path_unescape run single)) [
    | inl (u, d) ↦ (e, ground arith, ground arith)
    | inr (x, d) ↦ absurd (ground arith)
  ]
]

nonempty_length : (s : Bytes) → is_empty s ≡ false → 0 < length s
nonempty_length [] h = absurd (ground arith)
nonempty_length (c ∷ s) h = omega arith

pub parse_literal-Moves : (p q : PathParser) (t : Bytes) → parse_literal p ≡ ok (t, q) → Moves p q
unfolding parse_literal consume_run advance
parse_literal-Moves p q t h =
    let (run, rest) = span is_literal p.rest in
    let (some_run, _, same) = finish_literal-ok p.pos run t (advance (length run) rest p) q h in
    let e = ap length (span-append is_literal p.rest) in
    let l = length-append run rest in
    let pos = nonempty_length run some_run in
    rw same
      (record { shorter = omega arith; output = refl; count = refl; seen = refl; variables = refl })

pub parse_literal-IsCanonicalLiteral :
    (p q : PathParser) (t : Bytes) → parse_literal p ≡ ok (t, q) → IsCanonicalLiteral t
unfolding parse_literal consume_run
parse_literal-IsCanonicalLiteral p q t h =
    let (run, rest) = span is_literal p.rest in
    let (_, e, _) = finish_literal-ok p.pos run t (advance (length run) rest p) q h in
    let bytes = All-imp IsLiteral IsByte run is_literal-IsByte (span-All is_literal p.rest) in
    record {
      literal_bytes = canonical_segment-IsLiteral run t bytes e;
      canonical = canonical_segment_idempotent run t bytes e;
    }
