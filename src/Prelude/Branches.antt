-- ===== src/Prelude/Branches.antt =====
-- A predicate of code that branches holds when it holds on each branch.
use mathlib.Core.Path.{◌≡◌, refl}
use mathlib.Core.Bool.{Bool, true, false}
use mathlib.Core.Option.{Option, none, some}
use vanguard_go.Prelude.Tests.{if◌then◌else◌}
use vanguard_go.Prelude.Results.{Result, ok, err}

module _ {ℓ κ} {B : Type ℓ} (P : B → Type κ) where
  pub if_holds :
      (b : Bool) {x y : B} → (b ≡ true → P x) → (b ≡ false → P y) → P (if b then x else y)
  if_holds true f g = f refl
  if_holds false f g = g refl

  pub option_holds {ℓ'} :
      {A : Type ℓ'} (o : Option A) {x : B} {next : A → B}
      → (o ≡ none → P x)
      → ((a : A) → o ≡ some a → P (next a))
      → P (elim o [ none ↦ x | some a ↦ next a ])
  option_holds none f g = f refl
  option_holds (some a) f g = g a refl

  pub result_holds {ℓ' ℓ''} :
      {A : Type ℓ'} {E : Type ℓ''} (r : Result E A) {next : A → B} {fail : E → B}
      → ((a : A) → r ≡ ok a → P (next a))
      → ((e : E) → r ≡ err e → P (fail e))
      → P (elim r [ ok a ↦ next a | err e ↦ fail e ])
  result_holds (ok a) f g = f a refl
  result_holds (err e) f g = g e refl
