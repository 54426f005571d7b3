-- ===== src/Number/Tests.antt =====
-- Numbers at concrete inputs.
use vanguard_go.Number.{
  digits, exponent_part, fraction_part, integer_part, is_json_number, negsuc, parse_int,
  parse_magnitude, parse_uint, trim_minus, unmarshal_int, unmarshal_number, value_from, ℤ,
}
use vanguard_go.Number.Grammar.{IsNumber}
use vanguard_go.Number.Accepts.{is_json_number_iff}
use vanguard_go.Prelude.{Bytes, Result, codes, err, false, ok, refl, true, ℕ, ◌↔◌, ◌≡◌}

exponent : is_json_number (codes "-12.50e+3") ≡ true
unfolding is_json_number trim_minus integer_part fraction_part exponent_part digits
exponent = refl

two_signs : is_json_number (codes "1e+-3") ≡ false
unfolding is_json_number trim_minus integer_part fraction_part exponent_part digits
two_signs = refl

leading_zero : is_json_number (codes "012") ≡ false
unfolding is_json_number trim_minus integer_part fraction_part exponent_part digits
leading_zero = refl

is_json_number_iff_example :
    (is_json_number (codes "-12.50e+3") ≡ true) ↔ IsNumber (codes "-12.50e+3")
is_json_number_iff_example = is_json_number_iff (codes "-12.50e+3")

abbrev refuse : Bytes → Result ℕ ℤ
refuse s = err 0

lowest : unmarshal_int refuse 128 (codes "-128") ≡ ok (negsuc 127)
unfolding unmarshal_int unmarshal_number is_json_number trim_minus integer_part fraction_part
    exponent_part digits parse_int parse_magnitude parse_uint value_from
lowest = refl

too_large : unmarshal_int refuse 128 (codes "128") ≡ err 0
unfolding unmarshal_int unmarshal_number is_json_number trim_minus integer_part fraction_part
    exponent_part digits parse_int parse_magnitude parse_uint value_from
too_large = refl
