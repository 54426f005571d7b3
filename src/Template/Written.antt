-- ===== src/Template/Written.antt =====
-- What the parser writes between two states: segments, and the variables that capture them.
use vanguard_go.Prelude.{
  All, All-append, All-imp, Bool, Bytes, List, Option, [], ap, append-nil, append_assoc, arith,
  codes, false, inl, inr, length, length-append, none, refl, some, subst, subst₂, sym, true, ℕ,
  ◌++◌, ◌+◌, ◌<◌, ◌∙◌, ◌∷◌, ◌≡◌, ◌≤◌, ◌⊎◌,
}
use vanguard_go.Template.{PathParser, PathVariable, write_segment}
use vanguard_go.Template.Literal.{IsCanonicalLiteral}
use vanguard_go.Template.Steps.{Moves}

-- The canonical text of segments.
abbrev pub written : List Bytes → Bytes
written [] = []
written (s ∷ ss) = b'/' ∷ (s ++ written ss)

abbrev pub IsSegment : Bytes → Type 0
IsSegment s = (s ≡ codes "*") ⊎ IsCanonicalLiteral s

-- Segments of which only the last may be "**"; `seen` says whether it is.
abbrev pub IsTrail : Bool → List Bytes → Type 0
IsTrail seen [] = seen ≡ false
IsTrail seen (s ∷ ss) =
    (IsSegment s × IsTrail seen ss) ⊎ ((s ≡ codes "**") × (ss ≡ []) × (seen ≡ true))

-- A variable captures at least one of the segments from `lo` to `hi`, and is unbounded only if
-- they end in "**".
abbrev pub EndsWithin : ℕ → ℕ → Bool → Option ℕ → Type 0
EndsWithin start hi seen none = seen ≡ true
EndsWithin start hi seen (some e) = (start < e) × (e ≤ hi)

pub record IsCapture (lo hi : ℕ) (seen : Bool) (v : PathVariable) : Type 0 where
  pub after : lo ≤ v.start
  pub before : v.start < hi
  pub ends : EndsWithin v.start hi seen v.end_segment

pub record Extends (p q : PathParser) : Type 0 where
  pub segments : List Bytes
  pub captured : List PathVariable
  pub no_longer : length q.rest ≤ length p.rest
  pub output : q.output ≡ p.output ++ written segments
  pub count : q.segment_count ≡ p.segment_count + length segments
  pub nonempty : 0 < length segments
  pub trail : IsTrail q.seen_double_star segments
  pub variables : q.variables ≡ p.variables ++ captured
  pub captures : All (IsCapture p.segment_count q.segment_count q.seen_double_star) captured

pub written-append : (xs ys : List Bytes) → written (xs ++ ys) ≡ written xs ++ written ys
written-append [] ys = refl
written-append (x ∷ xs) ys = simp (written-append xs ys, append_assoc)

IsTrail-append :
    (seen : Bool) (xs ys : List Bytes)
    → IsTrail false xs
    → IsTrail seen ys
    → IsTrail seen (xs ++ ys)
IsTrail-append seen [] ys h k = k
IsTrail-append seen (x ∷ xs) ys (inl (s, h)) k = inl (s, IsTrail-append seen xs ys h k)
IsTrail-append seen (x ∷ xs) ys (inr (_, _, e)) k = absurd (ground arith)

EndsWithin-mono :
    (start hi hi' : ℕ) (seen seen' : Bool) (e : Option ℕ)
    → hi ≤ hi'
    → (seen ≡ true → seen' ≡ true)
    → EndsWithin start hi seen e
    → EndsWithin start hi' seen' e
EndsWithin-mono start hi hi' seen seen' none l f h = f h
EndsWithin-mono start hi hi' seen seen' (some e) l f (a, b) = (a, omega arith)

IsCapture-mono :
    {lo lo' hi hi' : ℕ} {seen seen' : Bool} (v : PathVariable)
    → lo' ≤ lo
    → hi ≤ hi'
    → (seen ≡ true → seen' ≡ true)
    → IsCapture lo hi seen v
    → IsCapture lo' hi' seen' v
IsCapture-mono {hi} {hi'} {seen} {seen'} v l m f c = record {
  after = omega (arith, c.after);
  before = omega (arith, c.before);
  ends = EndsWithin-mono v.start hi hi' seen seen' v.end_segment m f c.ends;
}

pub Extends-trans :
    {p q r : PathParser} → Extends p q → q.seen_double_star ≡ false → Extends q r → Extends p r
Extends-trans {p} {q} {r} f e g = record {
  segments = f.segments ++ g.segments;
  captured = f.captured ++ g.captured;
  no_longer = omega (arith, f.no_longer, g.no_longer);
  output =
      rw (g.output, f.output, written-append)
        (append_assoc p.output (written f.segments) (written g.segments));
  count = omega (arith, f.count, g.count, length-append f.segments g.segments);
  nonempty = omega (arith, f.nonempty, length-append f.segments g.segments);
  trail = IsTrail-append _ f.segments g.segments (rw e at f.trail) g.trail;
  variables = rw (g.variables, f.variables) (append_assoc p.variables f.captured g.captured);
  captures =
      All-append _ f.captured g.captured
        (All-imp _ _ f.captured
          (λ v.
            IsCapture-mono v (omega arith) (omega (arith, g.count)) (λ s. absurd (ground arith)))
          f.captures)
        (All-imp _ _ g.captured
          (λ v. IsCapture-mono v (omega (arith, f.count)) (omega arith) (λ s. s)) g.captures);
}

pub Moves-Extends : {p q r : PathParser} → Moves p q → Extends q r → Extends p r
Moves-Extends {p} {q} {r} m f = record {
  segments = f.segments;
  captured = f.captured;
  no_longer = omega (arith, m.shorter, f.no_longer);
  output = f.output ∙ ap (λ o. o ++ written f.segments) m.output;
  count = omega (arith, f.count, m.count);
  nonempty = f.nonempty;
  trail = f.trail;
  variables = f.variables ∙ ap (λ o. o ++ f.captured) m.variables;
  captures =
      subst (λ n. All (IsCapture n r.segment_count r.seen_double_star) f.captured) m.count
        f.captures;
}

pub Extends-Moves : {p q r : PathParser} → Extends p q → Moves q r → Extends p r
Extends-Moves {p} {q} {r} f m = record {
  segments = f.segments;
  captured = f.captured;
  no_longer = omega (arith, m.shorter, f.no_longer);
  output = m.output ∙ f.output;
  count = m.count ∙ f.count;
  nonempty = f.nonempty;
  trail = subst (λ b. IsTrail b f.segments) (sym m.seen) f.trail;
  variables = m.variables ∙ f.variables;
  captures =
      subst₂ (λ n b. All (IsCapture p.segment_count n b) f.captured) (sym m.count) (sym m.seen)
        f.captures;
}

-- One segment, written where the parser stands.
pub write_segment-Extends :
    (s : Bytes) (p : PathParser)
    → p.seen_double_star ≡ false
    → IsSegment s
    → Extends p (write_segment s p)
unfolding write_segment
write_segment-Extends s p e h = record {
  segments = s ∷ [];
  captured = [];
  no_longer = omega arith;
  output = rw append-nil;
  count = refl;
  nonempty = omega arith;
  trail = inl (h, e);
  variables = sym (append-nil _);
  captures = tt;
}

pub write_double_star-Extends :
    (p : PathParser) → Extends p (write_segment (codes "**") (record p { seen_double_star = true }))
unfolding write_segment
write_double_star-Extends p = record {
  segments = codes "**" ∷ [];
  captured = [];
  no_longer = omega arith;
  output = rw append-nil;
  count = refl;
  nonempty = omega arith;
  trail = inr (refl, refl, refl);
  variables = sym (append-nil _);
  captures = tt;
}
