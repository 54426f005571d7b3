-- ===== src/Number.antt =====
-- params.go, numbers: `isJSONNumber`, and how `unmarshalInt` and `unmarshalUint` read a number of
-- 32 or 64 bits. json.Unmarshal, to which the source turns when its own reading fails, is a
-- parameter.
pub mod Grammar
pub mod Parts
pub mod Accepts
pub mod Decimal
mod Tests
use vanguard_go.Prelude.{
  Bool, Bytes, Option, Result, [], err, false, has_prefix, if◌then◌else◌, is_empty, leb, length,
  ltb, none, ok, some, true, ℕ, zero, suc, ◌&&◌, ◌*◌, ◌+◌, ◌++◌, ◌-◌, ◌/◌, ◌%◌, ◌^◌, ◌==◌, ◌||◌,
  ◌∷◌,
}

abbrev pub is_digit : ℕ → Bool
is_digit c = leb b'0' c && leb c b'9'

abbrev pub is_sign : ℕ → Bool
is_sign c = c == b'+' || c == b'-'

-- strings.TrimLeft of the bytes that pass a test
abbrev pub trim_left : (ℕ → Bool) → Bytes → Bytes
trim_left test [] = []
trim_left test (c ∷ s) = let rest = trim_left test s in if test c then rest else c ∷ s

-- `digits`: what follows the digits, none if there is no digit (its second result).
unfoldable pub digits : Bytes → Option Bytes
digits s =
    let trimmed = trim_left is_digit s in
    if ltb (length trimmed) (length s) then some trimmed else none

-- strings.TrimPrefix(data, "-")
unfoldable pub trim_minus : Bytes → Bytes
trim_minus [] = []
trim_minus (c ∷ s) = if c == b'-' then s else c ∷ s

-- What follows the integer, none where the source returns false.
unfoldable pub integer_part : Bytes → Option Bytes
integer_part [] = none
integer_part (c ∷ s) =
    if c == b'0'
    then some s
    else if leb b'1' c && leb c b'9'
    then some (trim_left is_digit (c ∷ s))
    else none

unfoldable pub fraction_part : Bytes → Option Bytes
unfolding digits
fraction_part [] = some []
fraction_part (c ∷ s) = if c == b'.' then digits s else some (c ∷ s)

unfoldable pub exponent_part : Bytes → Option Bytes
unfolding digits
exponent_part [] = some []
exponent_part (c ∷ s) =
    let rest = trim_left is_sign s in
    if c == b'e' || c == b'E'
    then (if ltb 2 (suc (length s) - length rest) then none else digits rest)
    else some (c ∷ s)

abbrev pub and_then : Option Bytes → (Bytes → Option Bytes) → Option Bytes
and_then none f = none
and_then (some s) f = f s

-- data == "" of what is left
abbrev pub is_all : Option Bytes → Bool
is_all none = false
is_all (some s) = is_empty s

unfoldable pub is_json_number : Bytes → Bool
unfolding trim_minus integer_part fraction_part exponent_part
is_json_number s =
    is_all (and_then (and_then (integer_part (trim_minus s)) fraction_part) exponent_part)

-- An integer, as the library's, over the native numbers.
pub data ℤ : Type 0 where
  pos : ℕ → ℤ
  negsuc : ℕ → ℤ

abbrev pub neg : ℕ → ℤ
neg zero = pos zero
neg (suc n) = negsuc n

abbrev pub all_digits : Bytes → Bool
all_digits [] = true
all_digits (c ∷ s) = is_digit c && all_digits s

-- The number of the digits, behind those that are read already.
unfoldable pub value_from : ℕ → Bytes → ℕ
value_from acc [] = acc
value_from acc (c ∷ s) = value_from (acc * 10 + (c - b'0')) s

-- strconv.ParseUint(s, 10, bits), none for an error
unfoldable pub parse_uint : ℕ → Bytes → Option ℕ
unfolding value_from
parse_uint limit [] = none
parse_uint limit (c ∷ s) =
    let value = value_from 0 (c ∷ s) in
    if all_digits (c ∷ s) && ltb value limit then some value else none

-- strconv.ParseInt(s, 10, bits); `half` is 2 ^ (bits - 1).
unfoldable pub parse_magnitude : ℕ → Bool → Bytes → Option ℤ
unfolding parse_uint
parse_magnitude half negative s = elim (parse_uint (half + half) s) [
  | none ↦ none
  | some value ↦
      if negative
      then (if leb value half then some (neg value) else none)
      else (if ltb value half then some (pos value) else none)
]

unfoldable pub parse_int : ℕ → Bytes → Option ℤ
unfolding parse_magnitude
parse_int half [] = none
parse_int half (c ∷ s) =
    if c == b'-'
    then parse_magnitude half true s
    else if c == b'+'
    then parse_magnitude half false s
    else parse_magnitude half false (c ∷ s)

-- `unmarshalNumber`; `fallback` is json.Unmarshal into the same type.
unfoldable pub unmarshal_number :
    {T E : Type 0} → (Bytes → Result E T) → (Bytes → Option T) → Bytes → Result E T
unfolding is_json_number
unmarshal_number fallback parse s =
    if is_json_number s then elim (parse s) [ some x ↦ ok x | none ↦ fallback s ] else fallback s

unfoldable pub unmarshal_int : {E : Type 0} → (Bytes → Result E ℤ) → ℕ → Bytes → Result E ℤ
unfolding parse_int unmarshal_number
unmarshal_int fallback half s = unmarshal_number fallback (parse_int half) s

unfoldable pub unmarshal_uint : {E : Type 0} → (Bytes → Result E ℕ) → ℕ → Bytes → Result E ℕ
unfolding parse_uint unmarshal_number
unmarshal_uint fallback limit s = unmarshal_number fallback (parse_uint limit) s

-- The decimal digits of a number, as json.Marshal writes it; `n + 1` rounds are enough.
unfoldable pub print_from : ℕ → ℕ → Bytes
print_from zero n = []
print_from (suc fuel) n =
    let front = print_from fuel (n / 10) in
    let last_digit = (b'0' + n % 10) ∷ [] in if ltb n 10 then last_digit else front ++ last_digit

unfoldable pub print_nat : ℕ → Bytes
unfolding print_from
print_nat n = print_from (n + 1) n

unfoldable pub print_int : ℤ → Bytes
unfolding print_nat
print_int (pos n) = print_nat n
print_int (negsuc n) = b'-' ∷ print_nat (n + 1)
