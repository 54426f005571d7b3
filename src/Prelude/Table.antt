-- ===== src/Prelude/Table.antt =====
-- A test over a small range of numbers, checked by evaluation.
use Prim.Native.Nat.{ℕ, zero, suc, ◌<◌}
use mathlib.Core.Path.{◌≡◌}
use mathlib.Core.Bool.{Bool, true, ◌&&◌}
use native.Mathlib.Omega.{arith}

module _ (test : ℕ → Bool) where
  unfoldable pub table_holds : ℕ → Bool
  table_holds zero = true
  table_holds (suc size) = table_holds size && test size

  pub table_holds_at : (size row : ℕ) → row < size → table_holds size ≡ true → test row ≡ true
  unfolding table_holds
  table_holds_at zero row below checked = absurd (omega arith)
  table_holds_at (suc size) row below checked = ground (arith, table_holds_at size row)
