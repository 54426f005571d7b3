-- ===== src/Encode/Filled.antt =====
-- Segments that are filled keep their literals.
use vanguard_go.Encode.{is_wildcard, place, place_all}
use vanguard_go.Prelude.Branches.{if_holds}
use vanguard_go.Prelude.{
  subst, All, Bytes, List, Option, Option-cases, [], ap, arith, bytes_eq, bytes_eq_iff, false, inl,
  inr, length, refl, some, suc, true, zero, ℕ, ◌<◌, ◌+◌, ◌≤◌, ◌∷◌, ◌≡◌, ◌∙◌, ◌⊎◌,
}

-- The second segments are the first with wildcards replaced, and any others behind them.
pub data Filled : List Bytes → List Bytes → Type 0 where
  behind : (ys : List Bytes) → Filled [] ys
  kept : (s : Bytes) {ss ys : List Bytes} → Filled ss ys → Filled (s ∷ ss) (s ∷ ys)
  replaced :
      (s y : Bytes) {ss ys : List Bytes}
      → is_wildcard s ≡ true
      → Filled ss ys
      → Filled (s ∷ ss) (y ∷ ys)

pub Filled-refl : (ss : List Bytes) → Filled ss ss
Filled-refl [] = behind []
Filled-refl (s ∷ ss) = kept s (Filled-refl ss)

pub Filled-trans : {xs ys zs : List Bytes} → Filled xs ys → Filled ys zs → Filled xs zs
Filled-trans {zs = zs} (behind ys) g = behind zs
Filled-trans (kept s f) (kept _ g) = kept s (Filled-trans f g)
Filled-trans (kept s f) (replaced _ z w g) = replaced s z w (Filled-trans f g)
Filled-trans (replaced s y w f) (kept _ g) = replaced s y w (Filled-trans f g)
Filled-trans (replaced s y w f) (replaced _ z _ g) = replaced s z w (Filled-trans f g)

-- These parts stand in the segments from an index on.
abbrev pub StandAt : ℕ → List Bytes → List Bytes → Type 0
StandAt index [] ss = Unit
StandAt index (p ∷ ps) [] = ⊥
StandAt zero (p ∷ ps) (s ∷ ss) = (s ≡ p) × StandAt zero ps ss
StandAt (suc index) (p ∷ ps) (s ∷ ss) = StandAt index (p ∷ ps) ss

abbrev pub IsKept : Bytes → Type 0
IsKept part = is_wildcard part ≡ false

-- Parts that are no wildcards stay where they stand.
pub StandAt-Filled :
    (index : ℕ) (ps : List Bytes) {ss ys : List Bytes}
    → All IsKept ps
    → Filled ss ys
    → StandAt index ps ss
    → StandAt index ps ys
StandAt-Filled index [] k f h = tt
StandAt-Filled zero (p ∷ ps) k (behind ys) h = absurd h
StandAt-Filled (suc index) (p ∷ ps) k (behind ys) h = absurd h
StandAt-Filled zero (p ∷ ps) (k, ks) (kept s f) (e, h) = (e, StandAt-Filled zero ps ks f h)
StandAt-Filled zero (p ∷ ps) (k, ks) (replaced s y w f) (e, h) =
    absurd (ground (arith, ap is_wildcard e, w, k))
StandAt-Filled (suc index) (p ∷ ps) k (kept s f) h = StandAt-Filled index (p ∷ ps) k f h
StandAt-Filled (suc index) (p ∷ ps) k (replaced s y w f) h = StandAt-Filled index (p ∷ ps) k f h

-- A part is placed within the segments or right behind them.
pub record Placing (index : ℕ) (part : Bytes) (ss ys : List Bytes) : Type 0 where
  pub filled : Filled ss ys
  pub stands : StandAt index (part ∷ []) ys
  pub longer : length ss ≤ length ys
  pub within : index < length ys
  pub reaches : (length ys ≡ length ss) ⊎ (index + 1 ≡ length ys)

some-injective : {A : Type 0} {x y : A} → some x ≡ some y → x ≡ y
some-injective h = cc

placed :
    (index : ℕ) (part : Bytes) (ss zs ys : List Bytes)
    → Placing index part ss zs
    → some zs ≡ some ys
    → Placing index part ss ys
placed index part ss zs ys h e = subst (Placing index part ss) (some-injective e) h

pub place-Placing :
    (index : ℕ) (part : Bytes) (ss ys : List Bytes)
    → index ≤ length ss
    → place index part ss ≡ some ys
    → Placing index part ss ys
unfolding place
place-Placing zero part [] ys h e =
    placed 0 part [] (part ∷ []) ys
      (record {
        filled = behind (part ∷ []);
        stands = (refl, tt);
        longer = omega arith;
        within = omega arith;
        reaches = inr refl;
      })
      e
place-Placing (suc index) part [] ys h e = absurd (omega (arith, h))
place-Placing zero part (s ∷ ss) ys h e =
    let P : Option (List Bytes) → Type 0 = λ r. r ≡ some ys → Placing 0 part (s ∷ ss) ys in
    if_holds P (is_wildcard s)
      (λ w. placed 0 part (s ∷ ss) (part ∷ ss) ys (record {
        filled = replaced s part w (Filled-refl ss);
        stands = (refl, tt);
        longer = omega arith;
        within = omega arith;
        reaches = inl refl;
      }))
      (λ _.
        if_holds P (bytes_eq s part)
          (λ q. placed 0 part (s ∷ ss) (s ∷ ss) ys (record {
            filled = Filled-refl (s ∷ ss);
            stands = ((bytes_eq_iff s part).0 q, tt);
            longer = omega arith;
            within = omega arith;
            reaches = inl refl;
          }))
          (λ _ n. absurd (ground (arith, n))))
      e
place-Placing (suc index) part (s ∷ ss) ys h e = elim (Option-cases (place index part ss)) [
  | inl n ↦ absurd (ground (arith, n, e))
  | inr (zs, k) ↦
      let x = place-Placing index part ss zs (omega (arith, h)) k in
      let q : s ∷ zs ≡ ys = ground (arith, k, e) in
      subst (Placing (suc index) part (s ∷ ss)) q (record {
        filled = kept s x.filled;
        stands = x.stands;
        longer = omega (arith, x.longer);
        within = omega (arith, x.within);
        reaches = elim x.reaches [
          | inl e ↦ inl (omega (arith, e))
          | inr e ↦ inr (omega (arith, e))
        ];
      })
]

StandAt-cons :
    (index : ℕ) (p : Bytes) (ps ys : List Bytes)
    → StandAt index (p ∷ []) ys
    → StandAt (suc index) ps ys
    → StandAt index (p ∷ ps) ys
StandAt-cons index p ps [] h k = absurd h
StandAt-cons zero p [] (y ∷ ys) (e, _) k = (e, tt)
StandAt-cons zero p (q ∷ ps) (y ∷ ys) (e, _) k = (e, k)
StandAt-cons (suc index) p [] (y ∷ ys) h k = h
StandAt-cons (suc index) p (q ∷ ps) (y ∷ ys) h k = StandAt-cons index p (q ∷ ps) ys h k

-- All parts are placed, one behind the other: the segments get no more, unless the last part ends them.
pub record PlacingAll (index : ℕ) (parts ss ys : List Bytes) : Type 0 where
  pub filled : Filled ss ys
  pub stands : StandAt index parts ys
  pub longer : length ss ≤ length ys
  pub within : index + length parts ≤ length ys
  pub reaches : (length ys ≡ length ss) ⊎ (index + length parts ≡ length ys)

pub place_all-PlacingAll :
    (index : ℕ) (parts ss ys : List Bytes)
    → index ≤ length ss
    → All IsKept parts
    → place_all index parts ss ≡ some ys
    → PlacingAll index parts ss ys
unfolding place_all
place_all-PlacingAll index [] ss ys h k e =
    subst (PlacingAll index [] ss) (some-injective e) (record {
      filled = Filled-refl ss;
      stands = tt;
      longer = omega arith;
      within = omega (arith, h);
      reaches = inl refl;
    })
place_all-PlacingAll index (p ∷ ps) ss ys h (k, ks) e = elim (Option-cases (place index p ss)) [
  | inl n ↦ absurd (ground (arith, n, e))
  | inr (zs, m) ↦
      let x = place-Placing index p ss zs h m in
      let rest : place_all (suc index) ps zs ≡ some ys = ground (arith, m, e) in
      let y = place_all-PlacingAll (suc index) ps zs ys (omega (arith, x.within)) ks rest in
      record {
        filled = Filled-trans x.filled y.filled;
        stands =
            StandAt-cons index p ps ys (StandAt-Filled index (p ∷ []) (k, tt) y.filled x.stands)
              y.stands;
        longer = omega (arith, x.longer, y.longer);
        within = omega (arith, y.within);
        reaches = elim y.reaches [
          | inr e ↦ inr (omega (arith, e))
          | inl e ↦ elim x.reaches [
            | inl d ↦ inl (e ∙ d)
            | inr d ↦ inr (omega (arith, d, e, y.within))
          ]
        ];
      }
]
