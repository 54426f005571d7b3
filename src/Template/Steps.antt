-- ===== src/Template/Steps.antt =====
-- What the small methods of `pathParser` leave alone, and that they move on.
use vanguard_go.Prelude.{
  All, Bool, Bool-cases, Bytes, [], ap, arith, false, inl, inr, length, length-append, refl, some,
  true, ℕ, ◌++◌, ◌<◌, ◌==◌, ◌∙◌, ◌∷◌, ◌≡◌,
}
use vanguard_go.Template.{
  PathParser, advance, consume, consume_rest, consume_run, peek, peek_rest, span,
}

-- The parser has moved behind some of the input, and has written nothing.
pub record Moves (p q : PathParser) : Type 0 where
  pub shorter : length q.rest < length p.rest
  pub output : q.output ≡ p.output
  pub count : q.segment_count ≡ p.segment_count
  pub seen : q.seen_double_star ≡ p.seen_double_star
  pub variables : q.variables ≡ p.variables

pub Moves-trans : {p q r : PathParser} → Moves p q → Moves q r → Moves p r
Moves-trans f g = record {
  shorter = omega arith;
  output = g.output ∙ f.output;
  count = g.count ∙ f.count;
  seen = g.seen ∙ f.seen;
  variables = g.variables ∙ f.variables;
}

consume_rest-Moves :
    (c : ℕ) (s : Bytes) (p q : PathParser)
    → consume_rest c s p ≡ some q
    → Moves (record p { rest = s }) q
unfolding consume_rest advance
consume_rest-Moves c [] p q h = absurd (ground arith)
consume_rest-Moves c (d ∷ s) p q h = elim (Bool-cases (d == c)) [
  | inl e ↦
      let same : advance 1 s p ≡ q = ground arith in
      rw (← same) (record {
        shorter = omega arith;
        output = refl;
        count = refl;
        seen = refl;
        variables = refl;
      })
  | inr e ↦ absurd (ground arith)
]

pub consume-Moves : (c : ℕ) (p q : PathParser) → consume c p ≡ some q → Moves p q
unfolding consume
consume-Moves c p q h = consume_rest-Moves c p.rest p q h

pub span-append : (f : ℕ → Bool) (s : Bytes) → (span f s).0 ++ (span f s).1 ≡ s
unfolding span
span-append f [] = refl
span-append f (c ∷ s) = ground (arith, span-append f s)

pub span-All : (f : ℕ → Bool) (s : Bytes) → All (λ c. f c ≡ true) (span f s).0
unfolding span
span-All f [] = tt
span-All f (c ∷ s) = elim (Bool-cases (f c)) [ inl e ↦ rw e (e, span-All f s) | inr e ↦ rw e tt ]

-- Bytes of the input that do not pass the test stay; one that does is taken.
span_first :
    (f : ℕ → Bool) (s : Bytes)
    → f (peek_rest s) ≡ true
    → f 0 ≡ false
    → length (span f s).1 < length s
unfolding span peek_rest
span_first f [] h z = absurd (ground arith)
span_first f (c ∷ s) h z =
    let e = ap length (span-append f s) in
    let l = length-append (span f s).0 (span f s).1 in rw h (omega arith)

-- A run that begins with a valid byte moves the parser.
pub consume_run-Moves :
    (f : ℕ → Bool) (p : PathParser) → f (peek p) ≡ true → f 0 ≡ false → Moves p (consume_run f p).1
unfolding consume_run advance peek
consume_run-Moves f p h z = record {
  shorter = span_first f p.rest h z;
  output = refl;
  count = refl;
  seen = refl;
  variables = refl;
}
