-- ===== src/Encode/Captured.antt =====
-- The server captures from a written path what the client has put there.
use vanguard_go.Encode.{
  EncodeError, count_of, fill_variables, fit, http_split_var, is_misfit, is_single, is_wildcard,
  place, place_all,
}
use vanguard_go.Encode.Filled.{StandAt}
use vanguard_go.Encode.Placed.{
  HasBytes, IsPart, Stands, fill_variables-Stands, http_split_var-IsPart,
}
use vanguard_go.Escape.{multi, path_escape, single}
use vanguard_go.Escape.Bytewise.{IsByte}
use vanguard_go.Escape.RoundTrip.{unescape-escape-single}
use vanguard_go.Prelude.{
  All, All-imp, Bytes, Lacks, List, Option, Option-cases, Result, Result-cases, [], ap, arith,
  bytes_eq, codes, drop, if◌then◌else◌, inl, inr, join, leb, length, none, not, ok, ok-injective,
  refl, some, subst, suc, sym, take, zero, ℕ, ◌+◌, ◌-◌, ◌&&◌, ◌==◌, ◌≤◌, ◌∙◌, ◌∷◌, ◌≡◌,
}
use vanguard_go.Prelude.Branches.{if_holds, option_holds}
use vanguard_go.Prelude.Map.{Map, put}
use vanguard_go.Route.Capture.{
  CaptureError, capture, index, index_between, size, slice, unescape_value,
}
use vanguard_go.Route.Capture.Values.{IsWithin, capture-index, value_mode}
use vanguard_go.Template.{PathVariable}
use vanguard_go.Template.Written.{written}

some-injective : {A : Type 0} {x y : A} → some x ≡ some y → x ≡ y
some-injective h = cc

-- What holds of the segments and of the parts holds of the segments that are filled.
module _ (P : Bytes → Type 0) where
  place-All :
      (i : ℕ) (part : Bytes) (ss ys : List Bytes)
      → P part
      → All P ss
      → place i part ss ≡ some ys
      → All P ys
  unfolding place
  place-All i part [] ys h k e = subst (All P) (some-injective e) (h, tt)
  place-All zero part (s ∷ ss) ys h (k, ks) e =
      let Q : Option (List Bytes) → Type 0 = λ r. r ≡ some ys → All P ys in
      if_holds Q (is_wildcard s) (λ _ n. subst (All P) (some-injective n) (h, ks))
        (λ _.
          if_holds Q (bytes_eq s part) (λ _ n. subst (All P) (some-injective n) (k, ks))
            (λ _ n. cc))
        e
  place-All (suc i) part (s ∷ ss) ys h (k, ks) e = elim (Option-cases (place i part ss)) [
    | inl n ↦ absurd (ground (arith, n, e))
    | inr (zs, m) ↦
        let q : s ∷ zs ≡ ys = ground (arith, m, e) in
        subst (All P) q (k, place-All i part ss zs h ks m)
  ]

  place_all-All :
      (i : ℕ) (parts ss ys : List Bytes)
      → All P parts
      → All P ss
      → place_all i parts ss ≡ some ys
      → All P ys
  unfolding place_all
  place_all-All i [] ss ys h k e = subst (All P) (some-injective e) k
  place_all-All i (p ∷ ps) ss ys (h, hs) k e = elim (Option-cases (place i p ss)) [
    | inl n ↦ absurd (ground (arith, n, e))
    | inr (zs, m) ↦
        place_all-All (suc i) ps zs ys hs (place-All i p ss zs h k m) (ground (arith, m, e))
  ]

StandAt-slice :
    (i : ℕ) (part : Bytes) (ys : List Bytes)
    → StandAt i (part ∷ []) ys
    → (i + 1 ≤ length ys) × (take 1 (drop i ys) ≡ part ∷ [])
StandAt-slice i part [] h = absurd h
StandAt-slice zero part (y ∷ ys) (e, _) = (omega arith, ap (λ p. p ∷ []) e)
StandAt-slice (suc i) part (y ∷ ys) h =
    let (l, e) = StandAt-slice i part ys h in (omega (arith, l), e)

one_wide : (n : ℕ) → n + 1 - n ≡ 1
one_wide n = omega arith

index_one :
    (from : ℕ) (part : Bytes) (ys : List Bytes)
    → StandAt from (part ∷ []) ys
    → index_between from (some (from + 1)) ys ≡ ok (part ∷ [])
unfolding index_between slice
index_one from part ys h =
    let (l, e) = StandAt-slice from part ys h in
    let d = one_wide from in
    if_holds (λ (r : Result CaptureError (List Bytes)). r ≡ ok (part ∷ []))
      (leb from (from + 1) && leb (from + 1) (length ys))
      (λ _. ap ok (ap (λ n. take n (drop from ys)) d ∙ e)) (λ n. absurd (ground (arith, n, l)))

-- A variable of one segment captures the value that stands escaped at its place.
capture_one :
    (v : PathVariable) (value : Bytes) (ys : List Bytes)
    → v.end_segment ≡ some (v.start + 1)
    → All IsByte value
    → All (Lacks b'/') ys
    → StandAt v.start (path_escape value single ∷ []) ys
    → capture v (written ys) ≡ ok value
unfolding index unescape_value
capture_one v value ys one b lacks h =
    let part = path_escape value single in
    let (l, _) = StandAt-slice v.start part ys h in
    let within : IsWithin (length ys) v.start v.end_segment =
      subst (IsWithin (length ys) v.start) (sym one) (omega arith, l) in
    let (vs, found, _, captured) = capture-index v ys lacks within in
    let here : index_between v.start v.end_segment ys ≡ ok (part ∷ []) =
      ap (λ e. index_between v.start e ys) one ∙ index_one v.start part ys h in
    let same : vs ≡ part ∷ [] = ok-injective (sym found ∙ here) in
    let mode : value_mode v.start v.end_segment ≡ single =
      ap (value_mode v.start) one ∙ ap (λ n. if n == 1 then single else multi) (one_wide v.start) in
    captured
    ∙ ap (λ x. unescape_value (join x (codes "/")) (value_mode v.start v.end_segment)) same
    ∙ ap (unescape_value part) mode
    ∙ rw (unescape_value, unescape-escape-single value b) refl

one_part :
    (v : PathVariable) (value : Bytes)
    → v.end_segment ≡ some (v.start + 1)
    → http_split_var value (not (is_single (size v))) ≡ path_escape value single ∷ []
unfolding http_split_var size
one_part v value one =
    let width : size v ≡ some (v.start + 1 - v.start) =
      ap (λ (e : Option ℕ). elim e [ none ↦ none | some to ↦ some (to - v.start) ]) one in
    ap (λ w. http_split_var value (not (is_single w))) (width ∙ ap some (one_wide v.start))

module _ {V E : Type 0} (variable_of : V → PathVariable) (parameter : V → ℕ → Result E Bytes) where
  fit-Lacks :
      (v : PathVariable) (value : Bytes) (ss ys : List Bytes)
      → All IsByte value
      → All (Lacks b'/') ss
      → fit variable_of parameter v value ss ≡ ok ys
      → All (Lacks b'/') ys
  unfolding fit
  fit-Lacks v value ss ys b h e =
      let several = not (is_single (size v)) in
      let parts = http_split_var value several in
      let lacks =
        All-imp IsPart (Lacks b'/') parts (λ p k. k.0) (http_split_var-IsPart value several b) in
      let P : Result (EncodeError E) (List Bytes) → Type 0 = λ r. r ≡ ok ys → All (Lacks b'/') ys in
      if_holds P (is_misfit (size v) parts) (λ _ n. cc)
        (λ _.
          option_holds P (place_all v.start parts ss) (λ _ n. cc)
            (λ filled k n.
              place_all-All (Lacks b'/') v.start parts ss ys lacks h
                (k ∙ ap some (ok-injective n))))
        e

  fill_variables-Lacks :
      (vars : List V) (counts counts' : Map ℕ) (ss ys : List Bytes)
      → All (HasBytes variable_of parameter) vars
      → All (Lacks b'/') ss
      → fill_variables variable_of parameter vars counts ss ≡ ok (counts', ys)
      → All (Lacks b'/') ys
  unfolding fill_variables
  fill_variables-Lacks [] counts counts' ss ys t h e =
      subst (All (Lacks b'/')) (ap (λ x. x.1) (ok-injective e)) h
  fill_variables-Lacks (v ∷ vars) counts counts' ss ys (t, ts) h e =
      let path = (variable_of v).field_path in
      let n = count_of path counts in
      elim (Result-cases (parameter v n)) [
        | inr (x, k) ↦ absurd (ground (arith, k, e))
        | inl (value, k) ↦
            elim (Result-cases (fit variable_of parameter (variable_of v) value ss)) [
              | inr (x, m) ↦ absurd (ground (arith, k, m, e))
              | inl (zs, m) ↦
                  fill_variables-Lacks vars (put path (n + 1) counts) counts' zs ys ts
                    (fit-Lacks (variable_of v) value ss zs (t n value k) h m)
                    (ground (arith, k, m, e))
            ]
      ]

  -- A variable is captured from a text as a value that the message has for it.
  pub record Captured (path : Bytes) (v : V) : Type 0 where
    pub times : ℕ
    pub value : Bytes
    pub has_value : parameter v times ≡ ok value
    pub captured : capture (variable_of v) path ≡ ok value

  abbrev pub IsOneWide : V → Type 0
  IsOneWide v = (variable_of v).end_segment ≡ some ((variable_of v).start + 1)

  Captured-of_Stands :
      (vars : List V) (ys : List Bytes)
      → All (Lacks b'/') ys
      → All (Stands variable_of parameter ys) vars
      → All IsOneWide vars
      → All (Captured (written ys)) vars
  Captured-of_Stands [] ys l h w = tt
  Captured-of_Stands (v ∷ vars) ys l (h, hs) (w, ws) =
      let at_place : StandAt (variable_of v).start (path_escape h.value single ∷ []) ys =
        subst (λ ps. StandAt (variable_of v).start ps ys) (one_part (variable_of v) h.value w)
          h.stands in
      (
        record {
          times = h.times;
          value = h.value;
          has_value = h.has_value;
          captured = capture_one (variable_of v) h.value ys w h.is_bytes l at_place;
        },
        Captured-of_Stands vars ys l hs ws,
      )

  -- When every variable of a target is one segment wide, and the values of a message are texts of
  -- bytes, then whatever those bytes are, also '/', '%' or ':', the server's `capture` of each
  -- variable, on the text of the segments that the client writes, gives a value that the message
  -- has for the variable.
  pub fill_variables-capture :
      (vars : List V) (counts counts' : Map ℕ) (ss ys : List Bytes)
      → All (HasBytes variable_of parameter) vars
      → All (Lacks b'/') ss
      → All (λ v. (variable_of v).start ≤ length ss) vars
      → All IsOneWide vars
      → fill_variables variable_of parameter vars counts ss ≡ ok (counts', ys)
      → All (Captured (written ys)) vars
  fill_variables-capture vars counts counts' ss ys t lacks within one e =
      let (_, stands, _) =
        fill_variables-Stands variable_of parameter vars counts counts' ss ys t within e in
      Captured-of_Stands vars ys (fill_variables-Lacks vars counts counts' ss ys t lacks e) stands
        one
