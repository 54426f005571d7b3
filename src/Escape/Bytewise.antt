-- ===== src/Escape/Bytewise.antt =====
-- One byte under the encoding: the character classes, and the digits of an escape.
use Prim.Native.Nat.{bit_or}
use vanguard_go.Escape.{is_hex, is_literal, is_variable, unhex, unhex_pair, upperhex_at}
use vanguard_go.Prelude.{Bool, arith, ltb, refl, true, ℕ, ◌%◌, ◌&&◌, ◌*◌, ◌/◌, ◌<◌, ◌==◌, ◌≡◌, ◌≢◌}
use vanguard_go.Prelude.Table.{table_holds, table_holds_at}

abbrev pub IsByte : ℕ → Type 0
IsByte c = c < 256

-- The bytes that separate or stand for segments: none of them is literal.
abbrev pub IsPlain : ℕ → Type 0
IsPlain c = (c ≢ b'/') × (c ≢ b':') × (c ≢ b'*')

pub is_variable-ne-percent : (c : ℕ) → is_variable c ≡ true → c ≢ b'%'
unfolding is_variable
is_variable-ne-percent c h e = ground arith

pub is_literal-IsPlain : (c : ℕ) → is_literal c ≡ true → IsPlain c
unfolding is_literal
is_literal-IsPlain c h = (λ e. ground arith, λ e. ground arith, λ e. ground arith)

pub is_literal_of_variable : (c : ℕ) → is_variable c ≡ true → is_literal c ≡ true
unfolding is_literal
is_literal_of_variable c h = unfold is_variable in ground arith

pub is_variable_lt : (c : ℕ) → is_variable c ≡ true → c < 256
unfolding is_variable
is_variable_lt c h = ground arith

abbrev hex_digits_ok : ℕ → Bool
hex_digits_ok c =
    (is_hex (upperhex_at (c / 16)) && is_hex (upperhex_at (c % 16)))
    && ((is_literal (upperhex_at (c / 16)) && is_literal (upperhex_at (c % 16)))
        && unhex_pair (upperhex_at (c / 16)) (upperhex_at (c % 16)) == c)

hex_table : table_holds hex_digits_ok 256 ≡ true
unfolding table_holds is_hex upperhex_at is_literal unhex_pair
hex_table = refl

-- The digits of a byte are valid hexadecimal digits, allowed in a literal, and spell the byte.
pub record IsHexOf (c : ℕ) : Type 0 where
  pub high : is_hex (upperhex_at (c / 16)) ≡ true
  pub low : is_hex (upperhex_at (c % 16)) ≡ true
  pub high_literal : is_literal (upperhex_at (c / 16)) ≡ true
  pub low_literal : is_literal (upperhex_at (c % 16)) ≡ true
  pub value : unhex_pair (upperhex_at (c / 16)) (upperhex_at (c % 16)) ≡ c

IsHexOf-of_ok : (c : ℕ) → hex_digits_ok c ≡ true → IsHexOf c
IsHexOf-of_ok c h = record {
  high = ground arith;
  low = ground arith;
  high_literal = ground arith;
  low_literal = ground arith;
  value = ground arith;
}

pub byte-IsHexOf : (c : ℕ) → IsByte c → IsHexOf c
byte-IsHexOf c h = IsHexOf-of_ok c (table_holds_at hex_digits_ok 256 c h hex_table)

unhex_lt : (c : ℕ) → unhex c < 16
unfolding unhex
unhex_lt c = ground arith

abbrev nibbles_ok : ℕ → Bool
nibbles_ok h = table_holds (λ l. ltb (bit_or (h * 16 % 256) l) 256) 16

nibbles_table : table_holds nibbles_ok 16 ≡ true
unfolding table_holds
nibbles_table = refl

-- The value of two hexadecimal digits is a byte, whatever the digits are.
pub unhex_pair-IsByte : (a b : ℕ) → IsByte (unhex_pair a b)
unfolding unhex_pair
unhex_pair-IsByte a b =
    let row = table_holds_at nibbles_ok 16 (unhex a) (unhex_lt a) nibbles_table in
    let at =
      table_holds_at (λ l. ltb (bit_or (unhex a * 16 % 256) l) 256) 16 (unhex b) (unhex_lt b) row in
    ground arith
