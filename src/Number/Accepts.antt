-- ===== src/Number/Accepts.antt =====
-- `isJSONNumber` accepts exactly what the grammar derives.
use vanguard_go.Number.{exponent_part, fraction_part, integer_part, is_json_number, trim_minus}
use vanguard_go.Prelude.{
  Bytes, Option-cases, [], ap, append-nil, arith, inl, inr, is_empty, refl, some, true, ◌++◌, ◌∙◌,
  ◌∷◌, ◌↔◌, ◌≡◌,
}
use vanguard_go.Number.Grammar.{IsNumber}
use vanguard_go.Number.Parts.{
  trim_minus-IsMinus, integer_part-IsInteger, fraction_part-IsFraction, exponent_part-IsExponent,
  fraction-NoDigit, exponent_part_at, fraction_part_at, integer_part_at, trim_minus_at,
}

is_empty-eq : (s : Bytes) → is_empty s ≡ true → s ≡ []
is_empty-eq [] h = refl
is_empty-eq (c ∷ s) h = absurd (ground arith)

-- The source accepts a text as a number exactly when the grammar of JSON numbers derives it.
pub is_json_number_iff : (s : Bytes) → (is_json_number s ≡ true) ↔ IsNumber s
unfolding is_json_number
is_json_number_iff s = (to, from)
  where
    to : is_json_number s ≡ true → IsNumber s
    to h = elim (Option-cases (integer_part (trim_minus s))) [
      | inl a ↦ absurd (ground (arith, h, a))
      | inr (r, a) ↦ elim (Option-cases (fraction_part r)) [
        | inl b ↦ absurd (ground (arith, h, a, b))
        | inr (q, b) ↦ elim (Option-cases (exponent_part q)) [
          | inl c ↦ absurd (ground (arith, h, a, b, c))
          | inr (p, c) ↦
              let (m, is_minus, e0) = trim_minus-IsMinus s in
              let (i, is_integer, e1) = integer_part-IsInteger (trim_minus s) r a in
              let (f, is_fraction, e2) = fraction_part-IsFraction r q b in
              let (x, is_exponent, e3) = exponent_part-IsExponent q p c in
              let nothing : p ≡ [] = is_empty-eq p (ground (arith, h, a, b, c)) in
              record {
                minus_part = m;
                int_part = i;
                frac_part = f;
                exp_part = x;
                is_minus = is_minus;
                is_integer = is_integer;
                is_fraction = is_fraction;
                is_exponent = is_exponent;
                text =
                    e0
                    ∙ ap (λ y. m ++ y)
                        (e1
                          ∙ ap (λ y. i ++ y)
                              (e2
                                ∙ ap (λ y. f ++ y) (e3 ∙ ap (λ y. x ++ y) nothing ∙ append-nil x)));
              }
        ]
      ]
    ]

    from : IsNumber s → is_json_number s ≡ true
    from n =
        let tail = n.frac_part ++ n.exp_part in
        let a : trim_minus s ≡ n.int_part ++ tail =
          ap trim_minus n.text
          ∙ trim_minus_at n.minus_part n.int_part tail n.is_minus n.is_integer in
        let b : integer_part (trim_minus s) ≡ some tail =
          ap integer_part a
          ∙ integer_part_at n.int_part tail n.is_integer
              (fraction-NoDigit n.frac_part n.exp_part n.is_fraction n.is_exponent) in
        let c : fraction_part tail ≡ some n.exp_part =
          fraction_part_at n.frac_part n.exp_part n.is_fraction n.is_exponent in
        let d : exponent_part n.exp_part ≡ some [] = exponent_part_at n.exp_part n.is_exponent in
        ground (arith, b, c, d)
