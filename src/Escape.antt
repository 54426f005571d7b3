-- ===== src/Escape.antt =====
-- path_parser.go, the character classes and the percent-encoding of path segments: `isIdent`,
-- `isLiteral`, `isVariable`, `ishex`, `unhex`, `pathIsHexSlash`, `pathEscape`, `validateHex` and
-- `pathUnescape`. A loop `for i := 0; i < len(input); i++` whose body adds to `i` is a recursion
-- on the rest of the input, with the number of bytes to skip.
pub mod Bytewise
mod Block
pub mod Shape
pub mod Decode
pub mod RoundTrip
pub mod Range
mod Tests
use Prim.Native.Nat.{bit_or}
use vanguard_go.Prelude.{
  Bool, Bytes, Option, Result, [], codes, err, false, get_elem?, if◌then◌else◌, leb, none, not, ok,
  some, suc, take, true, zero, ℕ, ◌%◌, ◌&&◌, ◌*◌, ◌++◌, ◌+◌, ◌-◌, ◌/◌, ◌==◌, ◌>>=◌, ◌||◌, ◌∷◌,
}

unfoldable pub is_ident_start : ℕ → Bool
is_ident_start char =
    (leb b'a' char && leb char b'z') || (leb b'A' char && leb char b'Z') || char == b'_'

unfoldable pub is_ident : ℕ → Bool
unfolding is_ident_start
is_ident char = is_ident_start char || (leb b'0' char && leb char b'9')

-- Allow [-_.~0-9a-zA-Z].
unfoldable pub is_variable : ℕ → Bool
unfolding is_ident
is_variable char = is_ident char || char == b'.' || char == b'-' || char == b'~'

-- Allow [-_.~0-9a-zA-Z] and % for escaped characters.
unfoldable pub is_literal : ℕ → Bool
unfolding is_variable
is_literal char = is_variable char || char == b'%'

abbrev pub upperhex : Bytes
upperhex = codes "0123456789ABCDEF"

-- `upperhex[n]`; the source indexes it by four bits only.
unfoldable pub upperhex_at : ℕ → ℕ
upperhex_at n = elim (get_elem? upperhex n) [ none ↦ 0 | some char ↦ char ]

unfoldable pub is_hex : ℕ → Bool
is_hex char =
    if leb b'0' char && leb char b'9'
    then true
    else if leb b'a' char && leb char b'f'
    then true
    else if leb b'A' char && leb char b'F'
    then true
    else false

unfoldable pub unhex : ℕ → ℕ
unhex char =
    if leb b'0' char && leb char b'9'
    then char - b'0'
    else if leb b'a' char && leb char b'f'
    then char - b'a' + 10
    else if leb b'A' char && leb char b'F'
    then char - b'A' + 10
    else 0

pub data PathEncoding : Type 0 where
  single multi : PathEncoding

abbrev pub is_multi : PathEncoding → Bool
is_multi single = false
is_multi multi = true

unfoldable pub path_is_hex_slash : Bytes → Bool
path_is_hex_slash (a ∷ (b ∷ (c ∷ _))) = a == b'%' && b == b'2' && (c == b'f' || c == b'F')
path_is_hex_slash _ = false

-- The count of the characters that possibly need escaping.
unfoldable pub hex_count : Bytes → ℕ
hex_count [] = 0
hex_count (char ∷ s) = (if is_variable char then 0 else 1) + hex_count s

-- '%' and the two digits of a byte.
unfoldable pub hex_bytes : ℕ → Bytes
unfolding upperhex_at
hex_bytes char = b'%' ∷ (upperhex_at (char / 16) ∷ (upperhex_at (char % 16) ∷ []))

-- The first case of the switch in `pathEscape`, at the input from `char` on.
unfoldable pub keeps_slash : PathEncoding → ℕ → Bytes → Bool
unfolding path_is_hex_slash
keeps_slash mode char s = char == b'%' && is_multi mode && path_is_hex_slash (char ∷ s)

-- What one round of the loop of `pathEscape` writes.
unfoldable pub escape_step : PathEncoding → ℕ → Bytes → Bytes
unfolding keeps_slash hex_bytes
escape_step mode char s =
    if keeps_slash mode char s
    then codes "%2F"
    else if not (is_variable char)
    then hex_bytes char
    else char ∷ []

unfoldable pub escape_from : PathEncoding → ℕ → Bytes → Bytes
escape_from mode skip [] = []
escape_from mode (suc skip) (char ∷ s) = escape_from mode skip s
escape_from mode zero (char ∷ s) =
    escape_step mode char s ++ escape_from mode (if keeps_slash mode char s then 2 else 0) s

unfoldable pub path_escape : Bytes → PathEncoding → Bytes
unfolding hex_count escape_step escape_from
path_escape input mode = if hex_count input == 0 then input else escape_from mode 0 input

-- `out_of_range` is the panic of an index past the end; the source never reaches it.
pub data UnescapeError : Type 0 where
  escape_error : Bytes → UnescapeError
  out_of_range : UnescapeError

unfoldable pub is_hex_escape : Bytes → Bool
unfolding is_hex
is_hex_escape (a ∷ (b ∷ (c ∷ _))) = a == b'%' && is_hex b && is_hex c
is_hex_escape _ = false

-- none for a nil error
unfoldable pub validate_hex : Bytes → Option UnescapeError
unfolding is_hex_escape
validate_hex input = if is_hex_escape input then none else some (escape_error (take 3 input))

-- The loop that counts '%' and checks that each is well-formed.
unfoldable pub check_from : ℕ → ℕ → Bytes → Result UnescapeError ℕ
check_from skip percent_count [] = ok percent_count
check_from (suc skip) percent_count (char ∷ s) = check_from skip percent_count s
check_from zero percent_count (char ∷ s) =
    let escaped = check_from 2 (percent_count + 1) s in
    let plain = check_from 0 percent_count s in
    if char == b'%'
    then elim (validate_hex (char ∷ s)) [ none ↦ escaped | some e ↦ err e ]
    else plain

-- `unhex(high)<<4 | unhex(low)`, on bytes
unfoldable pub unhex_pair : ℕ → ℕ → ℕ
unfolding unhex
unhex_pair high low = bit_or (unhex high * 16 % 256) (unhex low)

-- What one round of the loop of `pathUnescape` writes for '%', at what follows it.
unfoldable pub unescape_step : PathEncoding → Bytes → Result UnescapeError Bytes
unfolding path_is_hex_slash unhex_pair
unescape_step mode (high ∷ (low ∷ s)) = ok (
    if is_multi mode && path_is_hex_slash (b'%' ∷ (high ∷ (low ∷ s)))
    then codes "%2F"
    else unhex_pair high low ∷ [])
unescape_step mode _ = err out_of_range

unfoldable pub unescape_from : PathEncoding → ℕ → Bytes → Result UnescapeError Bytes
unescape_from mode skip [] = ok []
unescape_from mode (suc skip) (char ∷ s) = unescape_from mode skip s
unescape_from mode zero (char ∷ s) =
    let escaped = unescape_from mode 2 s in
    let plain = unescape_from mode 0 s in
    if char == b'%'
    then (do written ← unescape_step mode s; rest ← escaped; ok (written ++ rest))
    else (do rest ← plain; ok (char ∷ rest))

unfoldable pub path_unescape : Bytes → PathEncoding → Result UnescapeError Bytes
unfolding check_from validate_hex unescape_step unescape_from
path_unescape input mode = do
  percent_count ← check_from 0 0 input
  if percent_count == 0 then ok input else unescape_from mode 0 input
