-- ===== src/Encode/Placed.antt =====
-- Each variable of a target stands in the segments of the written path, and is captured from it.
use vanguard_go.Encode.{
  EncodeError, count_of, fill_variables, fit, http_split_var, is_misfit, is_single, place_all,
}
use vanguard_go.Encode.Filled.{
  Filled, Filled-refl, Filled-trans, IsKept, PlacingAll, StandAt, StandAt-Filled,
  place_all-PlacingAll,
}
use vanguard_go.Escape.{multi, path_escape, single}
use vanguard_go.Escape.Bytewise.{IsByte, is_literal-IsPlain}
use vanguard_go.Escape.Shape.{IsLiteral, path_escape-IsLiteral}
use vanguard_go.Prelude.{
  All, All-imp, Bool, Bool-cases, Bytes, false, sym, ◌⊎◌, Lacks, List, Result, Result-cases, [], ap,
  arith, cons_first, inl, inr, length, map, not, ok, ok-injective, refl, some, split, subst, ℕ, ◌+◌,
  ◌==◌, ◌≤◌, ◌≡◌, ◌≢◌, ◌∙◌, ◌∷◌,
}
use vanguard_go.Prelude.Branches.{if_holds, option_holds}
use vanguard_go.Prelude.Map.{Map, put}
use vanguard_go.Route.Capture.{size}
use vanguard_go.Template.{PathVariable}

-- An escaped part: no '/' in it, and no wildcard.
abbrev pub IsPart : Bytes → Type 0
IsPart part = Lacks b'/' part × IsKept part

literal-IsKept : (part : Bytes) → All IsLiteral part → IsKept part
literal-IsKept [] h = refl
literal-IsKept (c ∷ s) (h, _) = let plain = (is_literal-IsPlain c h).2 in ground (arith, plain)

literal-IsPart : (part : Bytes) → All IsLiteral part → IsPart part
literal-IsPart part h = (
  All-imp IsLiteral (λ c. c ≢ b'/') part (λ c l. (is_literal-IsPlain c l).0) h,
  literal-IsKept part h,
)

escaped_parts :
    (values : List Bytes)
    → All (All IsByte) values
    → All IsPart (map (λ value. path_escape value multi) values)
escaped_parts [] h = tt
escaped_parts (v ∷ values) (h, hs) = (
  literal-IsPart (path_escape v multi) (path_escape-IsLiteral v multi h),
  escaped_parts values hs,
)

cons_first-IsByte :
    (c : ℕ) (parts : List Bytes)
    → IsByte c
    → All (All IsByte) parts
    → All (All IsByte) (cons_first c parts)
cons_first-IsByte c [] b h = ((b, tt), tt)
cons_first-IsByte c (p ∷ parts) b (h, hs) = ((b, h), hs)

split-IsByte : (s : Bytes) → All IsByte s → All (All IsByte) (split s b'/')
split-IsByte [] h = (tt, tt)
split-IsByte (c ∷ s) (b, h) =
    if_holds (All (All IsByte)) (c == b'/') (λ _. (tt, split-IsByte s h))
      (λ _. cons_first-IsByte c (split s b'/') b (split-IsByte s h))

pub http_split_var-IsPart :
    (value : Bytes) (several : Bool) → All IsByte value → All IsPart (http_split_var value several)
unfolding http_split_var
http_split_var-IsPart value several h =
    if_holds (All IsPart) (not several)
      (λ _. (literal-IsPart (path_escape value single) (path_escape-IsLiteral value single h), tt))
      (λ _. escaped_parts (split value b'/') (split-IsByte value h))

module _ {V E : Type 0} (variable_of : V → PathVariable) (parameter : V → ℕ → Result E Bytes) where
  -- The values of a variable are texts of bytes.
  abbrev pub HasBytes : V → Type 0
  HasBytes v = (n : ℕ) (value : Bytes) → parameter v n ≡ ok value → All IsByte value

  abbrev pub parts_of : PathVariable → Bytes → List Bytes
  parts_of v value = http_split_var value (not (is_single (size v)))

  -- A variable of some number of segments has as many parts.
  abbrev pub HasWidth : PathVariable → Bytes → Type 0
  HasWidth v value =
      (width : ℕ) → size v ≡ some width → 1 ≤ width → length (parts_of v value) ≡ width

  -- The value of a variable stands, escaped, at the variable's segments, and has as many parts as the
  -- variable has segments, if that is bounded.
  pub record Stands (segments : List Bytes) (v : V) : Type 0 where
    pub times : ℕ
    pub value : Bytes
    pub has_value : parameter v times ≡ ok value
    pub is_bytes : All IsByte value
    pub stands : StandAt (variable_of v).start (parts_of (variable_of v) value) segments
    pub has_width : HasWidth (variable_of v) value

  -- The value of one of the variables ends the segments.
  abbrev pub IsLast : List Bytes → List V → Type 0
  IsLast segments [] = ⊥
  IsLast segments (v ∷ vars) =
      ((s : Stands segments v) × ((variable_of v).start + length (parts_of (variable_of v) s.value)
          ≡ length segments))
      ⊎ IsLast segments vars

  has_width :
      (v : PathVariable) (value : Bytes)
      → is_misfit (size v) (parts_of v value) ≡ false
      → HasWidth v value
  unfolding is_misfit http_split_var
  has_width v value fits width e positive = elim (Bool-cases (width == 1)) [
    | inl one ↦
        let single_part : length (parts_of v value) ≡ 1 = rw (e, one) refl in
        ground (arith, single_part, one)
    | inr several ↦
        let fits' : is_misfit (some width) (parts_of v value) ≡ false =
          ap (λ w. is_misfit w (parts_of v value)) (sym e) ∙ fits in
        ground (arith, fits', several, positive)
  ]

  fit-HasWidth :
      (v : PathVariable) (value : Bytes) (ss ys : List Bytes)
      → fit variable_of parameter v value ss ≡ ok ys
      → HasWidth v value
  unfolding fit
  fit-HasWidth v value ss ys e =
      let P : Result (EncodeError E) (List Bytes) → Type 0 = λ r. r ≡ ok ys → HasWidth v value in
      if_holds P (is_misfit (size v) (parts_of v value)) (λ _ n. cc)
        (λ fits _. has_width v value fits) e

  fit-PlacingAll :
      (v : PathVariable) (value : Bytes) (ss ys : List Bytes)
      → v.start ≤ length ss
      → All IsByte value
      → fit variable_of parameter v value ss ≡ ok ys
      → PlacingAll v.start (parts_of v value) ss ys
  unfolding fit
  fit-PlacingAll v value ss ys h b e =
      let parts = http_split_var value (not (is_single (size v))) in
      let kept =
        All-imp IsPart IsKept parts (λ p h. h.1)
          (http_split_var-IsPart value (not (is_single (size v))) b) in
      let P : Result (EncodeError E) (List Bytes) → Type 0 =
        λ r. r ≡ ok ys → PlacingAll v.start parts ss ys in
      if_holds P (is_misfit (size v) parts) (λ _ n. cc)
        (λ _.
          option_holds P (place_all v.start parts ss) (λ _ n. cc)
            (λ filled k n.
              place_all-PlacingAll v.start parts ss ys h kept (k ∙ ap some (ok-injective n))))
        e

  Stands-Filled :
      (vars : List V) {ss ys : List Bytes} → Filled ss ys → (v : V) → Stands ss v → Stands ys v
  Stands-Filled vars f v s = record {
    times = s.times;
    value = s.value;
    has_value = s.has_value;
    is_bytes = s.is_bytes;
    has_width = s.has_width;
    stands =
        let several = not (is_single (size (variable_of v))) in
        let parts = http_split_var s.value several in
        StandAt-Filled (variable_of v).start parts
          (All-imp IsPart IsKept parts (λ p h. h.1)
            (http_split_var-IsPart s.value several s.is_bytes))
          f s.stands;
  }

  -- When the loop over the variables of a target succeeds, on segments that no variable starts
  -- behind and with values of bytes, then in the segments that it leaves the literals of the
  -- template are what they were, only wildcards are replaced, and every variable's value, at an
  -- index of the loop's choice, stands escaped at the variable's place, also when variables
  -- overlap, with as many parts as the variable has segments if that is bounded. Segments are added
  -- at the end only for a variable's value, which then ends them.
  pub fill_variables-Stands :
      (vars : List V) (counts counts' : Map ℕ) (ss ys : List Bytes)
      → All HasBytes vars
      → All (λ v. (variable_of v).start ≤ length ss) vars
      → fill_variables variable_of parameter vars counts ss ≡ ok (counts', ys)
      → Filled ss ys × All (Stands ys) vars × ((length ys ≡ length ss) ⊎ IsLast ys vars)
  unfolding fill_variables Stands-Filled
  fill_variables-Stands [] counts counts' ss ys t h e =
      let same = ap (λ x. x.1) (ok-injective e) in
      (subst (Filled ss) same (Filled-refl ss), tt, inl (ap length (sym same)))
  fill_variables-Stands (v ∷ vars) counts counts' ss ys (t, ts) (h, hs) e =
      let path = (variable_of v).field_path in
      let n = count_of path counts in
      elim (Result-cases (parameter v n)) [
        | inr (x, k) ↦ absurd (ground (arith, k, e))
        | inl (value, k) ↦
            elim (Result-cases (fit variable_of parameter (variable_of v) value ss)) [
              | inr (x, m) ↦ absurd (ground (arith, k, m, e))
              | inl (zs, m) ↦
                  let x = fit-PlacingAll (variable_of v) value ss zs h (t n value k) m in
                  let rest : fill_variables variable_of parameter vars (put path (n + 1) counts) zs
                      ≡ ok (counts', ys) =
                    ground (arith, k, m, e) in
                  let longer =
                    All-imp (λ w. (variable_of w).start ≤ length ss)
                      (λ w. (variable_of w).start ≤ length zs) vars
                      (λ w l. omega (arith, l, x.longer)) hs in
                  let (filled, all, rest_ends) =
                    fill_variables-Stands vars (put path (n + 1) counts) counts' zs ys ts longer
                      rest in
                  let first : Stands zs v = record {
                    times = n;
                    value = value;
                    has_value = k;
                    is_bytes = t n value k;
                    stands = x.stands;
                    has_width = fit-HasWidth (variable_of v) value ss zs m;
                  } in
                  let here = Stands-Filled vars filled v first in
                  (
                    Filled-trans x.filled filled,
                    (here, all),
                    elim rest_ends [
                      | inr later ↦ inr (inr later)
                      | inl e ↦ elim x.reaches [
                        | inl d ↦ inl (e ∙ d)
                        | inr d ↦ inr (inl (here, d ∙ sym e))
                      ]
                    ],
                  )
            ]
      ]
