-- ===== src/Number/Parts.antt =====
-- What each part of `isJSONNumber` reads.
use vanguard_go.Number.{
  digits, exponent_part, fraction_part, integer_part, is_digit, is_sign, trim_left, trim_minus,
}
use vanguard_go.Prelude.{
  All, Bool-cases, Bytes, [], ap, append-nil, arith, false, inl, inr, leb, length, length-append,
  ltb, refl, some, sym, true, ℕ, suc, ◌&&◌, ◌++◌, ◌-◌, ◌≤◌, ◌==◌, ◌||◌, ◌∙◌, ◌∷◌, ◌≡◌, ◌⊎◌,
}
use vanguard_go.Number.Grammar.{
  IsDigit, IsDigits, IsExponent, IsFraction, IsInteger, IsMinus, no_minus, minus, just_zero,
  from_one, no_fraction, fraction, no_exponent, unsigned, signed,
}

-- No digit stands first.
abbrev pub NoDigit : Bytes → Type 0
NoDigit [] = Unit
NoDigit (c ∷ s) = is_digit c ≡ false

-- What digits leave, and where they end.
trim_left-digits : (s : Bytes) → (ds : Bytes) × All IsDigit ds × (s ≡ ds ++ trim_left is_digit s)
trim_left-digits [] = ([], tt, refl)
trim_left-digits (c ∷ s) = elim (Bool-cases (is_digit c)) [
  | inl d ↦
      let (ds, h, e) = trim_left-digits s in
      (c ∷ ds, ((ground (arith, d), ground (arith, d)), h), rw (d, trim_left) (ap (λ x. c ∷ x) e))
  | inr d ↦ ([], tt, rw (d, trim_left) refl)
]

trim_left_digits_at :
    (ds rest : Bytes) → All IsDigit ds → NoDigit rest → trim_left is_digit (ds ++ rest) ≡ rest
trim_left_digits_at [] [] h n = refl
trim_left_digits_at [] (c ∷ rest) h n = rw (n, trim_left) refl
trim_left_digits_at (d ∷ ds) rest ((a, b), h) n =
    let e : is_digit d ≡ true = ground (arith, a, b) in
    rw (e, trim_left) (trim_left_digits_at ds rest h n)

digits-IsDigits :
    (s rest : Bytes) → digits s ≡ some rest → (ds : Bytes) × IsDigits ds × (s ≡ ds ++ rest)
unfolding digits
digits-IsDigits s rest h =
    let (ds, all_digits, e) = trim_left-digits s in
    let d : trim_left is_digit s ≡ rest = ground (arith, h) in
    (ds, ((λ z. shorter ds z e), all_digits), e ∙ ap (λ x. ds ++ x) d)
  where
    shorter : (ds : Bytes) → ds ≡ [] → s ≡ ds ++ trim_left is_digit s → ⊥
    shorter ds z e =
        ground (arith, h, ap length e, ap length z, length-append ds (trim_left is_digit s))

digits_at : (ds rest : Bytes) → IsDigits ds → NoDigit rest → digits (ds ++ rest) ≡ some rest
unfolding digits
digits_at [] rest (given, h) n = absurd (given refl)
digits_at (d ∷ ds) rest (given, h) n =
    let e = trim_left_digits_at (d ∷ ds) rest h n in ground (arith, e, length-append ds rest)

pub trim_minus-IsMinus : (s : Bytes) → (m : Bytes) × IsMinus m × (s ≡ m ++ trim_minus s)
unfolding trim_minus
trim_minus-IsMinus [] = ([], no_minus, refl)
trim_minus-IsMinus (c ∷ s) = elim (Bool-cases (c == b'-')) [
  | inl e ↦
      let d : c ≡ b'-' = ground (arith, e) in
      (b'-' ∷ [], minus, rw (e, trim_minus) (ap (λ x. x ∷ s) d))
  | inr e ↦ ([], no_minus, rw (e, trim_minus) refl)
]

pub integer_part-IsInteger :
    (s rest : Bytes) → integer_part s ≡ some rest → (i : Bytes) × IsInteger i × (s ≡ i ++ rest)
unfolding integer_part
integer_part-IsInteger [] rest h = absurd (ground (arith, h))
integer_part-IsInteger (c ∷ s) rest h = elim (Bool-cases (c == b'0')) [
  | inl e ↦
      let d : c ≡ b'0' = ground (arith, e) in
      let k : s ≡ rest = ground (arith, e, h) in (b'0' ∷ [], just_zero, rw (d, k) refl)
  | inr e ↦ elim (Bool-cases (leb b'1' c && leb c b'9')) [
    | inr f ↦ absurd (ground (arith, e, f, h))
    | inl f ↦
        let (ds, all_digits, d) = trim_left-digits s in
        let one : is_digit c ≡ true = ground (arith, f) in
        let k : trim_left is_digit s ≡ rest = ground (arith, e, f, h, one) in
        (
          c ∷ ds,
          from_one (ground (arith, f)) (ground (arith, f)) all_digits,
          ap (λ x. c ∷ x) (d ∙ ap (λ x. ds ++ x) k),
        )
  ]
]

pub fraction_part-IsFraction :
    (s rest : Bytes) → fraction_part s ≡ some rest → (f : Bytes) × IsFraction f × (s ≡ f ++ rest)
unfolding fraction_part
fraction_part-IsFraction [] rest h = let e : [] ≡ rest = ground (arith, h) in ([], no_fraction, e)
fraction_part-IsFraction (c ∷ s) rest h = elim (Bool-cases (c == b'.')) [
  | inr e ↦ let k : c ∷ s ≡ rest = ground (arith, e, h) in ([], no_fraction, k)
  | inl e ↦
      let d : c ≡ b'.' = ground (arith, e) in
      let (ds, is_digits, k) = digits-IsDigits s rest (ground (arith, e, h)) in
      (b'.' ∷ ds, fraction is_digits, rw d (ap (λ x. b'.' ∷ x) k))
]

-- What signs leave.
trim_left-signs :
    (s : Bytes)
    → (signs : Bytes) × All (λ c. (c ≡ b'+') ⊎ (c ≡ b'-')) signs
      × (s ≡ signs ++ trim_left is_sign s)
trim_left-signs [] = ([], tt, refl)
trim_left-signs (c ∷ s) = elim (Bool-cases (is_sign c)) [
  | inl d ↦
      let (signs, h, e) = trim_left-signs s in
      (c ∷ signs, (ground (arith, d), h), rw (d, trim_left) (ap (λ x. c ∷ x) e))
  | inr d ↦ ([], tt, rw (d, trim_left) refl)
]

IsExponent-of_signs :
    (e : ℕ) (signs rest' rest : Bytes)
    → (e ≡ b'e') ⊎ (e ≡ b'E')
    → All (λ c. (c ≡ b'+') ⊎ (c ≡ b'-')) signs
    → length signs ≤ 1
    → digits rest' ≡ some rest
    → (x : Bytes) × IsExponent x × (e ∷ (signs ++ rest') ≡ x ++ rest)
IsExponent-of_signs e [] rest' rest letter h l d =
    let (ds, is_digits, k) = digits-IsDigits rest' rest d in
    (e ∷ ds, unsigned letter is_digits, ap (λ x. e ∷ x) k)
IsExponent-of_signs e (sign ∷ []) rest' rest letter h l d =
    let (ds, is_digits, k) = digits-IsDigits rest' rest d in
    (e ∷ (sign ∷ ds), signed letter h.0 is_digits, ap (λ x. e ∷ (sign ∷ x)) k)
IsExponent-of_signs e (a ∷ (b ∷ signs)) rest' rest letter h l d = absurd (omega arith)

pub exponent_part-IsExponent :
    (s rest : Bytes) → exponent_part s ≡ some rest → (x : Bytes) × IsExponent x × (s ≡ x ++ rest)
unfolding exponent_part
exponent_part-IsExponent [] rest h = let e : [] ≡ rest = ground (arith, h) in ([], no_exponent, e)
exponent_part-IsExponent (c ∷ s) rest h = elim (Bool-cases (c == b'e' || c == b'E')) [
  | inr e ↦ let k : c ∷ s ≡ rest = ground (arith, e, h) in ([], no_exponent, k)
  | inl e ↦
      let (signs, all_signs, k) = trim_left-signs s in
      let rest' = trim_left is_sign s in
      elim (Bool-cases (ltb 2 (suc (length s) - length rest'))) [
        | inl many ↦ absurd (ground (arith, e, many, h))
        | inr few ↦
            let l : length signs ≤ 1 =
              ground (arith, few, ap length k, length-append signs rest') in
            let (x, is_exponent, d) =
              IsExponent-of_signs c signs rest' rest (ground (arith, e)) all_signs l
                (ground (arith, e, few, h)) in
            (x, is_exponent, ap (λ y. c ∷ y) k ∙ d)
      ]
]

-- Behind an integer stands no digit, and behind a fraction.
exponent-NoDigit : (x : Bytes) → IsExponent x → NoDigit x
exponent-NoDigit [] no_exponent = tt
exponent-NoDigit (e ∷ ds) (unsigned letter h) = ground (arith, letter)
exponent-NoDigit (e ∷ (sign ∷ ds)) (signed letter s h) = ground (arith, letter)

pub fraction-NoDigit : (f x : Bytes) → IsFraction f → IsExponent x → NoDigit (f ++ x)
fraction-NoDigit [] x no_fraction h = exponent-NoDigit x h
fraction-NoDigit (c ∷ ds) x (fraction d) h = refl

trim_left_unsigned : (ds : Bytes) → IsDigits ds → trim_left is_sign ds ≡ ds
trim_left_unsigned [] h = refl
trim_left_unsigned (d ∷ ds) (given, (h, hs)) = ground (arith, h)

pub exponent_part_at : (x : Bytes) → IsExponent x → exponent_part x ≡ some []
unfolding exponent_part
exponent_part_at [] no_exponent = refl
exponent_part_at (e ∷ ds) (unsigned letter h) =
    let k = trim_left_unsigned ds h in
    let d : digits ds ≡ some [] = ap digits (sym (append-nil ds)) ∙ digits_at ds [] h tt in
    ground (arith, letter, k, d)
exponent_part_at (e ∷ (sign ∷ ds)) (signed letter s h) =
    let k = trim_left_unsigned ds h in
    let d : digits ds ≡ some [] = ap digits (sym (append-nil ds)) ∙ digits_at ds [] h tt in
    ground (arith, letter, s, k, d)

pub fraction_part_at : (f x : Bytes) → IsFraction f → IsExponent x → fraction_part (f ++ x) ≡ some x
unfolding fraction_part
fraction_part_at [] [] no_fraction h = refl
fraction_part_at [] (e ∷ ds) no_fraction (unsigned letter h) = ground (arith, letter)
fraction_part_at [] (e ∷ (sign ∷ ds)) no_fraction (signed letter s h) = ground (arith, letter)
fraction_part_at (c ∷ ds) x (fraction d) h = digits_at ds x d (exponent-NoDigit x h)

pub integer_part_at :
    (i rest : Bytes) → IsInteger i → NoDigit rest → integer_part (i ++ rest) ≡ some rest
unfolding integer_part
integer_part_at [] rest x n = elim x [ ]
integer_part_at (c ∷ []) rest just_zero n = refl
integer_part_at (c ∷ ds) rest (from_one low high h) n =
    let k = trim_left_digits_at ds rest h n in
    let d : is_digit c ≡ true = ground (arith, low, high) in ground (arith, low, high, k, d)

pub trim_minus_at :
    (m i rest : Bytes) → IsMinus m → IsInteger i → trim_minus (m ++ (i ++ rest)) ≡ i ++ rest
unfolding trim_minus
trim_minus_at [] (c ∷ []) rest no_minus just_zero = refl
trim_minus_at [] (c ∷ ds) rest no_minus (from_one low high h) = ground (arith, low, high)
trim_minus_at [] [] rest m h = elim h [ ]
trim_minus_at (c ∷ []) i rest minus h = refl
trim_minus_at (c ∷ (d ∷ s)) i rest m h = elim m [ ]
