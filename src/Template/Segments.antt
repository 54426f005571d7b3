-- ===== src/Template/Segments.antt =====
-- `parseVariable`, `parseSegment` and `parseSegments`: what they write, and how far they move.
use vanguard_go.Escape.{is_literal}
use vanguard_go.Prelude.{
  All-append, Bool, Bool-cases, Bytes, Option-cases, [], append_assoc, arith, bind-ok, codes, false,
  if◌then◌else◌, inl, inr, length, none, ok, refl, some, suc, sym, true, zero, ℕ, ◌++◌, ◌<◌, ◌∙◌,
  ◌∷◌, ◌≡◌,
}
use vanguard_go.Template.{
  Parsed, PathParser, PathVariable, consume, finish_variable, is_seen, parse_capture,
  parse_field_path, parse_literal, parse_literal_segment, parse_segment, parse_segments, parse_star,
  parse_variable, peek, write_segment,
}
use vanguard_go.Template.Fuel.{parse_field_path-Moves}
use vanguard_go.Template.Literal.{parse_literal-IsCanonicalLiteral, parse_literal-Moves}
use vanguard_go.Template.Steps.{consume-Moves}
use vanguard_go.Template.Written.{
  EndsWithin, Extends, Extends-Moves, Extends-trans, IsCapture, IsSegment, Moves-Extends,
  write_double_star-Extends, write_segment-Extends,
}

-- What a successful call of `parseSegments` promises, on parsers that have seen no "**".
abbrev pub Parses : (PathParser → Parsed PathParser) → Type 0
Parses segments = (p q : PathParser) → p.seen_double_star ≡ false → segments p ≡ ok q → Extends p q

star-IsSegment : IsSegment (codes "*")
star-IsSegment = inl refl

module _ (segments : PathParser → Parsed PathParser) (parses : Parses segments) where
  parse_capture-Extends :
      (p q : PathParser)
      → p.seen_double_star ≡ false
      → parse_capture segments p ≡ ok q
      → Extends p q
  unfolding parse_capture
  parse_capture-Extends p q e h = elim (Option-cases (consume b'=' p)) [
    | inl d ↦
        let same : write_segment (codes "*") p ≡ q = ground arith in
        rw (← same) (write_segment-Extends (codes "*") p e star-IsSegment)
    | inr (r, d) ↦
        let m = consume-Moves b'=' p r d in Moves-Extends m (parses r q (m.seen ∙ e) (ground arith))
  ]

ends_of :
    (start hi : ℕ) (seen : Bool)
    → start < hi
    → EndsWithin start hi seen (if seen then none else some hi)
ends_of start hi true l = refl
ends_of start hi false l = (l, omega arith)

-- Closing a variable records a capture of what was written since it began.
finish_variable-Extends :
    (name : Bytes) (p q r : PathParser)
    → Extends p q
    → finish_variable name p.segment_count q ≡ ok r
    → Extends p r
unfolding finish_variable
finish_variable-Extends name p q r f h = elim (Option-cases (consume b'}' q)) [
  | inl d ↦ absurd (ground arith)
  | inr (t, d) ↦
      let g = Extends-Moves f (consume-Moves b'}' q t d) in
      let v : PathVariable = record {
        field_path = name;
        start = p.segment_count;
        end_segment = if t.seen_double_star then none else some t.segment_count;
      } in
      let same : record t { variables = t.variables ++ v ∷ [] } ≡ r = ground arith in
      let last : IsCapture p.segment_count t.segment_count t.seen_double_star v = record {
        after = omega arith;
        before = omega (arith, g.count, g.nonempty);
        ends =
            ends_of p.segment_count t.segment_count t.seen_double_star
              (omega (arith, g.count, g.nonempty));
      } in
      rw (← same) (record {
        segments = g.segments;
        captured = g.captured ++ v ∷ [];
        no_longer = g.no_longer;
        output = g.output;
        count = g.count;
        nonempty = g.nonempty;
        trail = g.trail;
        variables = rw g.variables (append_assoc p.variables g.captured (v ∷ []));
        captures = All-append _ g.captured (v ∷ []) g.captures (last, tt);
      })
]

parse_star-Extends : (p : PathParser) → p.seen_double_star ≡ false → Extends p (parse_star p)
unfolding parse_star
parse_star-Extends p e = elim (Option-cases (consume b'*' p)) [
  | inl d ↦ rw (d, parse_star) (write_segment-Extends (codes "*") p e star-IsSegment)
  | inr (q, d) ↦
      rw (d, parse_star) (Moves-Extends (consume-Moves b'*' p q d) (write_double_star-Extends q))
]

parse_literal_segment-Extends :
    (p q : PathParser)
    → p.seen_double_star ≡ false
    → parse_literal_segment p ≡ ok q
    → Extends p q × (length q.rest < length p.rest)
unfolding parse_literal_segment
parse_literal_segment-Extends p q e h = elim (Bool-cases (is_literal (peek p))) [
  | inr d ↦ absurd (ground arith)
  | inl d ↦
      let ((t, r), lit, rest) = bind-ok (parse_literal p) _ (rw d at h) in
      let m = parse_literal-Moves p r t lit in
      let c = parse_literal-IsCanonicalLiteral p r t lit in
      let f = Moves-Extends m (write_segment-Extends t r (m.seen ∙ e) (inr c)) in
      let same : write_segment t r ≡ q = ground arith in
      rw (← same) (f, unfold write_segment in m.shorter)
]

module _ (segments : PathParser → Parsed PathParser) (parses : Parses segments) where
  parse_variable-Extends :
      (p q : PathParser)
      → p.seen_double_star ≡ false
      → parse_variable segments p ≡ ok q
      → Extends p q
  unfolding parse_variable
  parse_variable-Extends p q e h =
      let ((name, a), field, rest) = bind-ok (parse_field_path p) _ h in
      let m = parse_field_path-Moves p a name field in
      elim (Bool-cases (is_seen name a.variables)) [
        | inl seen ↦ absurd (ground arith)
        | inr fresh ↦
            let (b, capture, close) = bind-ok (parse_capture segments a) _ (rw fresh at rest) in
            Moves-Extends m (
              finish_variable-Extends name a b q
                (parse_capture-Extends segments parses a b (m.seen ∙ e) capture) close)
      ]

  pub parse_segment-Extends :
      (p q : PathParser)
      → p.seen_double_star ≡ false
      → parse_segment segments p ≡ ok q
      → Extends p q × (length q.rest < length p.rest)
  unfolding parse_segment
  parse_segment-Extends p q e h = elim (Option-cases (consume b'*' p)) [
    | inr (r, d) ↦
        let m = consume-Moves b'*' p r d in
        let f = parse_star-Extends r (m.seen ∙ e) in
        let same : parse_star r ≡ q = ground arith in
        rw (← same) (Moves-Extends m f, omega (arith, m.shorter, f.no_longer))
    | inl d ↦ elim (Option-cases (consume b'{' p)) [
      | inr (r, d') ↦
          let m = consume-Moves b'{' p r d' in
          let f = parse_variable-Extends r q (m.seen ∙ e) (ground arith) in
          (Moves-Extends m f, omega (arith, m.shorter, f.no_longer))
      | inl d' ↦ parse_literal_segment-Extends p q e (ground arith)
    ]
  ]

-- A successful run of `parseSegments` writes segments of which only the last may be "**", and
-- records captures among them.
pub parse_segments-Extends : (fuel : ℕ) → Parses (parse_segments fuel)
unfolding parse_segments
parse_segments-Extends zero p q e h = absurd (ground arith)
parse_segments-Extends (suc fuel) p q e h =
    let parses = parse_segments-Extends fuel in
    let (r, first, rest) = bind-ok (parse_segment (parse_segments fuel) p) _ h in
    let f = parse_segment-Extends (parse_segments fuel) parses p r e first in
    elim (Option-cases (consume b'/' r)) [
      | inl d ↦ let same : r ≡ q = ground arith in rw (← same) f.0
      | inr (t, d) ↦
          let m = consume-Moves b'/' r t d in
          elim (Bool-cases t.seen_double_star) [
            | inl s ↦ absurd (ground arith)
            | inr s ↦
                Extends-trans f.0 (sym m.seen ∙ s) (Moves-Extends m (parses t q s (ground arith)))
          ]
    ]
