-- ===== src/Number/Grammar.antt =====
-- The grammar of JSON numbers.
use vanguard_go.Prelude.{All, Bytes, [], ℕ, ◌++◌, ◌≤◌, ◌∷◌, ◌≡◌, ◌≢◌, ◌⊎◌}

abbrev pub IsDigit : ℕ → Type 0
IsDigit c = (b'0' ≤ c) × (c ≤ b'9')

-- One digit or more.
abbrev pub IsDigits : Bytes → Type 0
IsDigits s = (s ≢ []) × All IsDigit s

-- minus = "-", if any
pub data IsMinus : Bytes → Type 0 where
  no_minus : IsMinus []
  minus : IsMinus (b'-' ∷ [])

-- int = "0", or a digit from 1 to 9 with any digits behind it
pub data IsInteger : Bytes → Type 0 where
  just_zero : IsInteger (b'0' ∷ [])
  from_one : {c : ℕ} {ds : Bytes} → b'1' ≤ c → c ≤ b'9' → All IsDigit ds → IsInteger (c ∷ ds)

-- frac = "." and digits, if any
pub data IsFraction : Bytes → Type 0 where
  no_fraction : IsFraction []
  fraction : {ds : Bytes} → IsDigits ds → IsFraction (b'.' ∷ ds)

-- exp = "e" or "E", one sign if any, and digits, if any
pub data IsExponent : Bytes → Type 0 where
  no_exponent : IsExponent []
  unsigned : {e : ℕ} {ds : Bytes} → (e ≡ b'e') ⊎ (e ≡ b'E') → IsDigits ds → IsExponent (e ∷ ds)
  signed :
      {e sign : ℕ} {ds : Bytes}
      → (e ≡ b'e') ⊎ (e ≡ b'E')
      → (sign ≡ b'+') ⊎ (sign ≡ b'-')
      → IsDigits ds
      → IsExponent (e ∷ (sign ∷ ds))

-- number = minus int frac exp
pub record IsNumber (s : Bytes) : Type 0 where
  pub minus_part : Bytes
  pub int_part : Bytes
  pub frac_part : Bytes
  pub exp_part : Bytes
  pub is_minus : IsMinus minus_part
  pub is_integer : IsInteger int_part
  pub is_fraction : IsFraction frac_part
  pub is_exponent : IsExponent exp_part
  pub text : s ≡ minus_part ++ (int_part ++ (frac_part ++ exp_part))
