-- ===== src/Prelude/Cuts.antt =====
-- Laws of the searches for a byte: the last one, and the parts between them.
use mathlib.Core.Path.{◌≡◌, refl, ap}
use mathlib.Core.Logic.{◌≢◌, inl, inr}
use mathlib.Core.Bool.{true}
use mathlib.Core.List.{[], ◌∷◌, ◌++◌}
use mathlib.Core.Option.{none, some}
use native.Mathlib.Omega.{arith}
use Prim.Native.Nat.{ℕ}
use vanguard_go.Prelude.Tests.{◌==◌, Bool-cases, Option-cases}
use vanguard_go.Prelude.Text.{Bytes, Lacks, cut, cut_last, ends_with}

pub cut_last-Lacks : (b : ℕ) (s : Bytes) → Lacks b s → cut_last b s ≡ none
cut_last-Lacks b [] h = refl
cut_last-Lacks b (c ∷ s) h = ground (arith, cut_last-Lacks b s h.1)

-- A byte that the rest lacks is the last of its kind.
pub cut_last_at :
    (b : ℕ) (front back : Bytes)
    → Lacks b back
    → cut_last b (front ++ (b ∷ back)) ≡ some (front, back)
cut_last_at b [] back h = rw (cut_last-Lacks b back h) (ground arith)
cut_last_at b (c ∷ front) back h = rw (cut_last_at b front back h) refl

pub cut_last-none : (b : ℕ) (s : Bytes) → cut_last b s ≡ none → Lacks b s
cut_last-none b [] h = tt
cut_last-none b (c ∷ s) h = elim (Option-cases (cut_last b s)) [
  | inl e ↦ (λ d. ground arith, cut_last-none b s e)
  | inr (p, e) ↦ absurd (ground arith)
]

pub cut_last-some :
    (b : ℕ) (s front back : Bytes)
    → cut_last b s ≡ some (front, back)
    → (s ≡ front ++ (b ∷ back)) × Lacks b back
cut_last-some b [] front back h = absurd (ground arith)
cut_last-some b (c ∷ s) front back h = elim (Option-cases (cut_last b s)) [
  | inl e ↦ elim (Bool-cases (c == b)) [
    | inl d ↦
        let f : [] ≡ front = ground arith in
        let g : s ≡ back = ground arith in
        let k : c ≡ b = ground arith in rw (← f, ← g, k) (refl, cut_last-none b s e)
    | inr d ↦ absurd (ground arith)
  ]
  | inr ((x, y), e) ↦
      let f : c ∷ x ≡ front = ground arith in
      let g : y ≡ back = ground arith in
      let (u, v) = cut_last-some b s x y e in rw (← f, ← g) (ap (λ r. c ∷ r) u, v)
]

pub ends_with-append : (s : Bytes) (b : ℕ) → ends_with (s ++ (b ∷ [])) b ≡ true
ends_with-append [] b = ground arith
ends_with-append (c ∷ []) b = ground arith
ends_with-append (c ∷ (d ∷ s)) b = ends_with-append (d ∷ s) b

-- The two ways in which a text is cut at its first `b`.
pub data CutOf (b : ℕ) (s : Bytes) : Bytes × Bytes → Type 0 where
  uncut : Lacks b s → CutOf b s (s, [])
  cut_behind :
      {front back : Bytes} → Lacks b front → s ≡ front ++ (b ∷ back) → CutOf b s (front, back)

CutOf-cons :
    (b c : ℕ) (s : Bytes) {r : Bytes × Bytes} → c ≢ b → CutOf b s r → CutOf b (c ∷ s) (c ∷ r.0, r.1)
CutOf-cons b c s n (uncut l) = uncut (n, l)
CutOf-cons b c s n (cut_behind l e) = cut_behind (n, l) (ap (λ t. c ∷ t) e)

pub cut-CutOf : (b : ℕ) (s : Bytes) → CutOf b s (cut b s)
cut-CutOf b [] = uncut tt
cut-CutOf b (c ∷ s) = elim (Bool-cases (c == b)) [
  | inl e ↦ let d : c ≡ b = ground arith in rw e (cut_behind tt (ap (λ x. x ∷ s) d))
  | inr e ↦ rw e (CutOf-cons b c s (λ d. ground arith) (cut-CutOf b s))
]

pub cut_none : (b : ℕ) (s : Bytes) → Lacks b s → cut b s ≡ (s, [])
cut_none b [] h = refl
cut_none b (c ∷ s) h = ground (arith, cut_none b s h.1)

pub cut-append :
    (b : ℕ) (front back : Bytes) → Lacks b front → cut b (front ++ (b ∷ back)) ≡ (front, back)
cut-append b [] back h = ground arith
cut-append b (c ∷ front) back h = ground (arith, cut-append b front back h.1)
