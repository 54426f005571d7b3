-- ===== src/Prelude/Map.antt =====
-- Go maps with string keys. The order of their entries is the order in which the source
-- ranges over them, where it does; Go leaves that order open.
use mathlib.Core.Path.{◌≡◌, refl}
use mathlib.Core.Option.{Option, none, some}
use mathlib.Core.List.{List, [], ◌∷◌}
use native.Mathlib.Omega.{arith}
use vanguard_go.Prelude.Tests.{if◌then◌else◌}
use vanguard_go.Prelude.Text.{Bytes, bytes_eq, bytes_eq_iff}

abbrev pub Map {ℓ} : Type ℓ → Type ℓ
Map V = List (Bytes × V)

module _ {ℓ} {V : Type ℓ} where
  -- m[k]
  abbrev pub get : Bytes → Map V → Option V
  get k [] = none
  get k ((j, v) ∷ m) = if bytes_eq j k then some v else get k m

  -- m[k] = v
  abbrev pub put : Bytes → V → Map V → Map V
  put k v [] = (k, v) ∷ []
  put k v ((j, w) ∷ m) = if bytes_eq j k then (k, v) ∷ m else (j, w) ∷ put k v m

  pub get-put :
      (k j : Bytes) (v : V) (m : Map V)
      → get j (put k v m) ≡ (if bytes_eq k j then some v else get j m)
  get-put k j v [] = refl
  get-put k j v ((i, w) ∷ m) =
      ground (arith, bytes_eq_iff k j, bytes_eq_iff i k, bytes_eq_iff i j, get-put k j v m)
