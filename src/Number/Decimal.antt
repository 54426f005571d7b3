-- ===== src/Number/Decimal.antt =====
-- A number that is written in decimal digits is read back.
use vanguard_go.Number.{
  all_digits, is_json_number, negsuc, parse_int, parse_magnitude, parse_uint, pos, print_from,
  print_int, print_nat, unmarshal_int, unmarshal_number, unmarshal_uint, value_from, ℤ,
}
use vanguard_go.Number.Accepts.{is_json_number_iff}
use vanguard_go.Number.Grammar.{
  IsDigit, IsInteger, IsMinus, from_one, just_zero, minus, no_exponent, no_fraction, no_minus,
}
use vanguard_go.Prelude.{
  All, Bool-cases, Bytes, Result, [], ap, append-nil, arith, inl, inr, ltb, ok, refl, some, subst,
  suc, sym, true, zero, ℕ, ◌%◌, ◌*◌, ◌+◌, ◌++◌, ◌-◌, ◌/◌, ◌<◌, ◌≤◌, ◌∙◌, ◌∷◌, ◌≡◌,
}

value_from-append :
    (acc : ℕ) (s : Bytes) (d : ℕ)
    → value_from acc (s ++ ((b'0' + d) ∷ [])) ≡ value_from acc s * 10 + d
unfolding value_from
value_from-append acc [] d = omega arith
value_from-append acc (c ∷ s) d = value_from-append (acc * 10 + (c - b'0')) s d

-- A number above 0 starts with a digit above 0.
record Positive (n : ℕ) (s : Bytes) : Type 0 where
  first : ℕ
  rest : Bytes
  text : s ≡ first ∷ rest
  low : b'1' ≤ first
  high : first ≤ b'9'
  others : All IsDigit rest
  value : value_from 0 s ≡ n

Positive-append :
    (n d : ℕ) (s : Bytes) → d < 10 → Positive n s → Positive (n * 10 + d) (s ++ ((b'0' + d) ∷ []))
Positive-append n d s small p = record {
  first = p.first;
  rest = p.rest ++ ((b'0' + d) ∷ []);
  text = ap (λ x. x ++ ((b'0' + d) ∷ [])) p.text;
  low = p.low;
  high = p.high;
  others = digits_and p.rest p.others;
  value = value_from-append 0 s d ∙ ap (λ x. x * 10 + d) p.value;
}
  where
    digits_and : (s : Bytes) → All IsDigit s → All IsDigit (s ++ ((b'0' + d) ∷ []))
    digits_and [] h = ((omega arith, omega arith), tt)
    digits_and (c ∷ s) (h, hs) = (h, digits_and s hs)

print_from-Positive : (fuel n : ℕ) → n < fuel → 0 < n → Positive n (print_from fuel n)
unfolding print_from
print_from-Positive zero n h p = absurd (omega arith)
print_from-Positive (suc fuel) n h p = elim (Bool-cases (ltb n 10)) [
  | inl small ↦
      rw (small, print_from)
        (record {
          first = b'0' + n % 10;
          rest = [];
          text = refl;
          low = ground (arith, small);
          high = ground (arith, small);
          others = tt;
          value = unfold value_from in ground (arith, small);
        })
  | inr large ↦
      let q = print_from-Positive fuel (n / 10) (ground (arith, large)) (ground (arith, large)) in
      let e : n / 10 * 10 + n % 10 ≡ n = omega arith in
      rw (large, print_from)
        (subst (λ m. Positive m (print_from fuel (n / 10) ++ ((b'0' + n % 10) ∷ []))) e
          (Positive-append (n / 10) (n % 10) (print_from fuel (n / 10)) (omega arith) q))
]

-- The digits of a number: an integer of the grammar, with its value.
record Written (n : ℕ) (s : Bytes) : Type 0 where
  is_integer : IsInteger s
  is_digits : all_digits s ≡ true
  value : value_from 0 s ≡ n
  first : ℕ
  rest : Bytes
  text : s ≡ first ∷ rest
  low : b'0' ≤ first

all_digits-All : (s : Bytes) → All IsDigit s → all_digits s ≡ true
all_digits-All [] h = refl
all_digits-All (c ∷ s) (h, hs) = ground (arith, h, all_digits-All s hs)

print_nat-Written : (n : ℕ) → Written n (print_nat n)
unfolding print_nat
print_nat-Written zero =
    unfold print_from value_from in
    record {
      is_integer = just_zero;
      is_digits = refl;
      value = refl;
      first = b'0';
      rest = [];
      text = refl;
      low = omega arith;
    }
print_nat-Written (suc n) =
    let p = print_from-Positive (suc n + 1) (suc n) (omega arith) (omega arith) in
    let e = p.text in
    record {
      is_integer = rw e (from_one p.low p.high p.others);
      is_digits =
          rw e (all_digits-All (p.first ∷ p.rest) ((omega (arith, p.low), p.high), p.others));
      value = p.value;
      first = p.first;
      rest = p.rest;
      text = e;
      low = omega (arith, p.low);
    }

number_of : (m s : Bytes) → IsMinus m → IsInteger s → is_json_number (m ++ s) ≡ true
number_of m s is_minus is_integer = (is_json_number_iff (m ++ s)).1 (record {
  minus_part = m;
  int_part = s;
  frac_part = [];
  exp_part = [];
  is_minus = is_minus;
  is_integer = is_integer;
  is_fraction = no_fraction;
  is_exponent = no_exponent;
  text = ap (λ x. m ++ x) (sym (append-nil s));
})

parse_uint-Written :
    (limit n : ℕ) (s : Bytes) → Written n s → n < limit → parse_uint limit s ≡ some n
unfolding parse_uint
parse_uint-Written limit n [] w h = absurd (ground (arith, w.text))
parse_uint-Written limit n (c ∷ s) w h = ground (arith, w.value, w.is_digits, h)

-- An unsigned number below the limit of its width is read back from its digits.
pub unmarshal_uint-print_nat :
    {E : Type 0} (fallback : Bytes → Result E ℕ) (limit n : ℕ)
    → n < limit
    → unmarshal_uint fallback limit (print_nat n) ≡ ok n
unfolding unmarshal_uint unmarshal_number
unmarshal_uint-print_nat fallback limit n h =
    let w = print_nat-Written n in
    rw
      (
        number_of [] (print_nat n) no_minus w.is_integer,
        parse_uint-Written limit n (print_nat n) w h,
        unmarshal_number,
      )
      refl

-- Within the range of two's complement, of which `half` is the lower end's distance from 0.
abbrev pub InRange : ℕ → ℤ → Type 0
InRange half (pos n) = n < half
InRange half (negsuc n) = n < half

parse_int-Written :
    (half n : ℕ) (s : Bytes) → Written n s → n < half → parse_int half s ≡ some (pos n)
unfolding parse_int parse_magnitude
parse_int-Written half n [] w h = absurd (ground (arith, w.text))
parse_int-Written half n (c ∷ s) w h =
    let d : c ≡ w.first = ground (arith, w.text) in
    let e = parse_uint-Written (half + half) n (c ∷ s) w (omega arith) in
    ground (arith, e, h, d, w.low)

parse_int-minus :
    (half n : ℕ) (s : Bytes)
    → Written (n + 1) s
    → n < half
    → parse_int half (b'-' ∷ s) ≡ some (negsuc n)
unfolding parse_int parse_magnitude
parse_int-minus half n s w h =
    let e = parse_uint-Written (half + half) (n + 1) s w (omega arith) in ground (arith, e, h)

-- A signed number in the range of its width is read back from its digits and its sign.
pub unmarshal_int-print_int :
    {E : Type 0} (fallback : Bytes → Result E ℤ) (half : ℕ) (z : ℤ)
    → InRange half z
    → unmarshal_int fallback half (print_int z) ≡ ok z
unfolding unmarshal_int unmarshal_number print_int
unmarshal_int-print_int fallback half (pos n) h =
    let w = print_nat-Written n in
    rw
      (
        number_of [] (print_nat n) no_minus w.is_integer,
        parse_int-Written half n (print_nat n) w h,
        unmarshal_number,
      )
      refl
unmarshal_int-print_int fallback half (negsuc n) h =
    let w = print_nat-Written (n + 1) in
    rw
      (
        number_of (b'-' ∷ []) (print_nat (n + 1)) minus w.is_integer,
        parse_int-minus half n (print_nat (n + 1)) w h,
        unmarshal_number,
      )
      refl
