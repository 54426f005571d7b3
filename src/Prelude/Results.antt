-- ===== src/Prelude/Results.antt =====
-- Results of fallible code, `(value, error)` in the source.
use mathlib.Core.Path.{◌≡◌, refl}
use mathlib.Core.Logic.{◌⊎◌, inl, inr}

pub data Result {ℓ κ} (E : Type ℓ) (A : Type κ) : Type (ℓ ⊔ κ) where
  ok : A → Result E A
  err : E → Result E A

infixl 5 ◌>>=◌
abbrev pub ◌>>=◌ {ℓ κ κ'} :
    {E : Type ℓ} {A : Type κ} {B : Type κ'} → Result E A → (A → Result E B) → Result E B
ok a >>= f = f a
err e >>= f = err e

pub Result-cases {ℓ κ} :
    {E : Type ℓ} {A : Type κ} (r : Result E A) → ((a : A) × (r ≡ ok a)) ⊎ ((e : E) × (r ≡ err e))
Result-cases (ok a) = inl (a, refl)
Result-cases (err e) = inr (e, refl)

pub ok-injective {ℓ κ} :
    {E : Type ℓ} {A : Type κ} {a b : A} → ◌≡◌ {A = Result E A} (ok a) (ok b) → a ≡ b
ok-injective h = cc

-- A step that continues to a result has succeeded itself.
pub bind-ok {ℓ κ κ'} :
    {E : Type ℓ} {A : Type κ} {B : Type κ'} (first : Result E A) (then_do : A → Result E B)
    {last : B}
    → (first >>= then_do) ≡ ok last
    → (value : A) × (first ≡ ok value) × (then_do value ≡ ok last)
bind-ok (ok value) then_do done = (value, refl, done)
bind-ok (err e) then_do done = cc

-- An error that neither step raises is not raised by both.
pub bind-ne-err {ℓ κ κ'} :
    {E : Type ℓ} {A : Type κ} {B : Type κ'} (m : Result E A) (f : A → Result E B) (e : E)
    → (◌≡◌ {A = Result E A} m (err e) → ⊥)
    → ((a : A) → m ≡ ok a → ◌≡◌ {A = Result E B} (f a) (err e) → ⊥)
    → ◌≡◌ {A = Result E B} (m >>= f) (err e)
    → ⊥
bind-ne-err (ok a) f e no_m no_f h = no_f a refl h
bind-ne-err (err x) f e no_m no_f h = no_m (cc)

-- The result of a step that succeeds, and of what follows it.
pub bind-eq {ℓ κ κ'} :
    {E : Type ℓ} {A : Type κ} {B : Type κ'} {first : Result E A} (then_do : A → Result E B)
    (value : A) {result : Result E B}
    → first ≡ ok value
    → then_do value ≡ result
    → (first >>= then_do) ≡ result
bind-eq then_do value done after = rw done after
