-- ===== src/Template/Canonical.antt =====
-- What `parsePathTemplate` returns: a canonical template, and captures within it.
use vanguard_go.Prelude.{
  All, Bool, Bytes, List, Option, Option-cases, [], ap, append-nil, arith, bind-ok, false, inl, inr,
  length, none, ok, refl, some, subst, subst₂, sym, ℕ, ◌++◌, ◌<◌, ◌∙◌, ◌∷◌, ◌≡◌,
}
use vanguard_go.Template.{
  PathParser, PathVariable, consume, parse_literal, parse_path_template, parse_segments,
  parse_template, parse_verb, start_parser, template_body, verb_literal,
}
use vanguard_go.Template.Literal.{
  IsCanonicalLiteral, parse_literal-IsCanonicalLiteral, parse_literal-Moves,
}
use vanguard_go.Template.Segments.{parse_segments-Extends}
use vanguard_go.Template.Steps.{consume-Moves}
use vanguard_go.Template.Written.{IsCapture, IsTrail, written}

-- ":" and a verb, or nothing.
abbrev pub verb_suffix : Option Bytes → Bytes
verb_suffix none = []
verb_suffix (some verb) = b':' ∷ verb

abbrev pub IsVerb : Option Bytes → Type 0
IsVerb none = Unit
IsVerb (some verb) = IsCanonicalLiteral verb

-- A canonical template: segments, of which only the last may be "**", and a verb.
pub record IsTemplate (template : Bytes) (variables : List PathVariable) : Type 0 where
  pub segments : List Bytes
  pub verb : Option Bytes
  pub double_star : Bool
  pub text : template ≡ written segments ++ verb_suffix verb
  pub nonempty : 0 < length segments
  pub trail : IsTrail double_star segments
  pub verb_ok : IsVerb verb
  pub captures : All (IsCapture 0 (length segments) double_star) variables

-- What a verb adds to the output.
record AddsVerb (p q : PathParser) : Type 0 where
  verb : Option Bytes
  output : q.output ≡ p.output ++ verb_suffix verb
  verb_ok : IsVerb verb
  variables : q.variables ≡ p.variables

verb_literal-AddsVerb : (p q : PathParser) → verb_literal p ≡ ok q → AddsVerb p q
unfolding verb_literal
verb_literal-AddsVerb p q h =
    let ((t, r), lit, rest) = bind-ok (parse_literal p) _ h in
    let m = parse_literal-Moves p r t lit in
    let c = parse_literal-IsCanonicalLiteral p r t lit in
    let same : record r { output = r.output ++ (b':' ∷ t) } ≡ q = ground arith in
    rw (← same) (record {
      verb = some t;
      output = ap (λ o. o ++ (b':' ∷ t)) m.output;
      verb_ok = c;
      variables = m.variables;
    })

parse_verb-AddsVerb : (p q : PathParser) → parse_verb p ≡ ok q → AddsVerb p q
unfolding parse_verb
parse_verb-AddsVerb p q h = elim (Option-cases (consume b':' p)) [
  | inl d ↦
      let same : p ≡ q = ground arith in
      rw (← same)
        (record { verb = none; output = sym (append-nil _); verb_ok = tt; variables = refl })
  | inr (r, d) ↦
      let m = consume-Moves b':' p r d in
      let a = verb_literal-AddsVerb r q (ground arith) in
      record {
        verb = a.verb;
        output = a.output ∙ ap (λ o. o ++ verb_suffix a.verb) m.output;
        verb_ok = a.verb_ok;
        variables = a.variables ∙ m.variables;
      }
]

template_body-IsTemplate :
    (fuel : ℕ) (p q : PathParser)
    → p.seen_double_star ≡ false
    → p.output ≡ []
    → p.segment_count ≡ 0
    → p.variables ≡ []
    → template_body fuel p ≡ ok q
    → IsTemplate q.output q.variables
unfolding template_body
template_body-IsTemplate fuel p q s o n v h =
    let (r, first, rest) = bind-ok (parse_segments fuel p) _ h in
    let (t, second, last) = bind-ok (parse_verb r) _ rest in
    let f = parse_segments-Extends fuel p r s first in
    let a = parse_verb-AddsVerb r t second in
    let same : t ≡ q = ground arith in
    let count : r.segment_count ≡ length f.segments = omega (arith, f.count) in
    rw (← same) (record {
      segments = f.segments;
      verb = a.verb;
      double_star = r.seen_double_star;
      text =
          a.output
          ∙ ap (λ x. x ++ verb_suffix a.verb) (f.output ∙ ap (λ x. x ++ written f.segments) o);
      nonempty = f.nonempty;
      trail = f.trail;
      verb_ok = a.verb_ok;
      captures =
          subst (All (IsCapture 0 (length f.segments) r.seen_double_star))
            (sym (a.variables ∙ (f.variables ∙ ap (λ x. x ++ f.captured) v)))
            (subst₂ (λ lo hi. All (IsCapture lo hi r.seen_double_star) f.captured) n count
              f.captures);
    })

-- A template that parses has a canonical form: its segments are "*" or escaped literals in
-- canonical form, only the last may be "**", and a verb is such a literal. Each variable captures
-- at least one segment, within the template, and is unbounded only if the last segment is "**".
pub parse_path_template-IsTemplate :
    (input template : Bytes) (variables : List PathVariable)
    → parse_path_template input ≡ ok (template, variables)
    → IsTemplate template variables
unfolding parse_path_template parse_template
parse_path_template-IsTemplate input template variables h =
    let (q, body, result) = bind-ok (parse_template (start_parser input)) _ h in
    elim (Option-cases (consume b'/' (start_parser input))) [
      | inl d ↦ absurd (ground arith)
      | inr (p, d) ↦
          let m = consume-Moves b'/' (start_parser input) p d in
          let t =
            template_body-IsTemplate (length input) p q m.seen m.output m.count m.variables
              (ground arith) in
          let same : q.output ≡ template = ground arith in
          let vars : q.variables ≡ variables = ground arith in subst₂ IsTemplate same vars t
    ]
