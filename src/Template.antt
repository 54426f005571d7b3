-- ===== src/Template.antt =====
-- path_parser.go, the recursive descent parser of path templates: `parsePathTemplate` and the
-- methods of `pathParser`. A method that moves the parser returns the moved parser; `rest` is
-- `input[pos:]`, so that the input is read where the source reads `input[pos]`. The loops of
-- `parseFieldPath` and `parseSegments` take fuel. The text of an error message is its data: the
-- column, what was expected, and the input at which it quotes the current character.
pub mod Steps
pub mod Literal
pub mod Fuel
pub mod Written
pub mod Segments
pub mod Total
pub mod Canonical
mod Tests
use vanguard_go.Escape.{
  UnescapeError, is_ident, is_ident_start, is_literal, path_escape, path_unescape, single,
  validate_hex,
}
use vanguard_go.Prelude.{
  Bool, Bytes, List, Option, Result, [], bytes_eq, codes, err, false, if◌then◌else◌, is_empty,
  is_some, length, none, not, ok, some, suc, take, true, zero, ℕ, ◌&&◌, ◌*◌, ◌++◌, ◌+◌, ◌-◌, ◌==◌,
  ◌>>=◌, ◌||◌, ◌∷◌,
}

-- `end_segment` is none for -1, the unbounded capture of a "**".
pub record PathVariable : Type 0 where
  pub field_path : Bytes
  pub start : ℕ
  pub end_segment : Option ℕ

pub record PathParser : Type 0 where
  pub rest : Bytes
  pub pos : ℕ
  pub seen_double_star : Bool
  pub segment_count : ℕ
  pub output : Bytes
  pub variables : List PathVariable

-- `currentChar`: the character that the rest of the input begins with, or EOF.
pub data CurrentChar : Type 0 where
  eof : CurrentChar
  char_of : Bytes → CurrentChar

pub data Message : Type 0 where
  unexpected : CurrentChar → Message
  expected : ℕ → CurrentChar → Message
  expected_path_value expected_identifier : Message
  bad_escape : UnescapeError → Message

-- `out_of_fuel` is not an error of the source; the fuel of `parse_path_template` suffices.
pub data ParseError : Type 0 where
  syntax : ℕ → Message → ParseError
  double_star_not_last : ParseError
  duplicate_variable : Bytes → ParseError
  out_of_fuel : ParseError

abbrev pub Parsed : Type 0 → Type 0
Parsed A = Result ParseError A

unfoldable pub write_segment : Bytes → PathParser → PathParser
write_segment segment p = record p {
  output = p.output ++ (b'/' ∷ segment);
  segment_count = p.segment_count + 1;
}

unfoldable pub peek_rest : Bytes → ℕ
peek_rest [] = 0
peek_rest (char ∷ _) = char

unfoldable pub peek : PathParser → ℕ
unfolding peek_rest
peek p = peek_rest p.rest

unfoldable pub advance : ℕ → Bytes → PathParser → PathParser
advance n rest p = record p { rest = rest; pos = p.pos + n }

unfoldable pub consume_rest : ℕ → Bytes → PathParser → Option PathParser
unfolding advance
consume_rest expected_char [] p = none
consume_rest expected_char (char ∷ s) p =
    if char == expected_char then some (advance 1 s p) else none

-- none for false; the parser has then not moved
unfoldable pub consume : ℕ → PathParser → Option PathParser
unfolding consume_rest
consume expected_char p = consume_rest expected_char p.rest p

-- the run of valid bytes, and what follows it
unfoldable pub span : (ℕ → Bool) → Bytes → Bytes × Bytes
span is_valid [] = ([], [])
span is_valid (char ∷ s) =
    let (run, rest) = span is_valid s in
    if is_valid char then (char ∷ run, rest) else ([], char ∷ s)

unfoldable pub consume_run : (ℕ → Bool) → PathParser → Bytes × PathParser
unfolding span advance
consume_run is_valid p =
    let (run, rest) = span is_valid p.rest in (run, advance (length run) rest p)

unfoldable pub current_rest : Bytes → CurrentChar
current_rest [] = eof
current_rest (char ∷ s) = char_of (char ∷ s)

unfoldable pub current_char : PathParser → CurrentChar
unfolding current_rest
current_char p = current_rest p.rest

unfoldable pub err_syntax : PathParser → Message → ParseError
err_syntax p msg = syntax (p.pos + 1) msg

unfoldable pub err_unexpected : PathParser → ParseError
unfolding current_char err_syntax
err_unexpected p = err_syntax p (unexpected (current_char p))

unfoldable pub err_expected : ℕ → PathParser → ParseError
unfolding current_char err_syntax
err_expected expected_char p = err_syntax p (expected expected_char (current_char p))

-- the offset of the first invalid escape
unfoldable pub first_bad : ℕ → Bytes → Option ℕ
first_bad i [] = none
first_bad i (char ∷ s) =
    let later = first_bad (i + 1) s in
    if char == b'%' && is_some (validate_hex (char ∷ s)) then some i else later

-- `p` has moved behind the literal; `start` is where the literal began
unfoldable pub literal_error : UnescapeError → ℕ → Bytes → PathParser → ParseError
unfolding first_bad err_syntax
literal_error e start literal p = elim (first_bad 0 literal) [
  | none ↦ err_syntax p (bad_escape e)
  | some i ↦ err_syntax (record p { pos = start + i }) (bad_escape e)
]

unfoldable pub finish_literal : ℕ → Bytes → PathParser → Parsed (Bytes × PathParser)
unfolding err_unexpected literal_error
finish_literal start literal p =
    if is_empty literal then err (err_unexpected p) else elim (path_unescape literal single) [
      | err e ↦ err (literal_error e start literal p)
      | ok unescaped ↦ ok (path_escape unescaped single, p)
    ]

unfoldable pub parse_literal : PathParser → Parsed (Bytes × PathParser)
unfolding consume_run finish_literal
parse_literal p = let (literal, q) = consume_run is_literal p in finish_literal p.pos literal q

-- The loop of `parseFieldPath`; `start` and `input` are where it began.
unfoldable pub field_path_from : ℕ → ℕ → Bytes → PathParser → Parsed (Bytes × PathParser)
unfolding peek consume_run consume err_syntax
field_path_from zero start input p = err out_of_fuel
field_path_from (suc fuel) start input p =
    if not (is_ident_start (peek p))
    then err (err_syntax p expected_identifier)
    else let q = (consume_run is_ident p).1 in
      elim (consume b'.' q) [
        | none ↦ ok (take (q.pos - start) input, q)
        | some r ↦ field_path_from fuel start input r
      ]

unfoldable pub parse_field_path : PathParser → Parsed (Bytes × PathParser)
unfolding field_path_from
parse_field_path p = field_path_from (length p.rest + 1) p.pos p.rest p

abbrev pub is_seen : Bytes → List PathVariable → Bool
is_seen field_path [] = false
is_seen field_path (v ∷ vs) = bytes_eq v.field_path field_path || is_seen field_path vs

-- The end of `parseVariable`, behind the segments of the capture.
unfoldable pub finish_variable : Bytes → ℕ → PathParser → Parsed PathParser
unfolding consume err_expected
finish_variable field_path start p = elim (consume b'}' p) [
  | none ↦ err (err_expected b'}' p)
  | some q ↦
      let variable : PathVariable = record {
        field_path = field_path;
        start = start;
        end_segment = if q.seen_double_star then none else some q.segment_count;
      } in
      ok (record q { variables = q.variables ++ variable ∷ [] })
]

unfoldable pub parse_star : PathParser → PathParser
unfolding consume write_segment
parse_star p = elim (consume b'*' p) [
  | some q ↦ write_segment (codes "**") (record q { seen_double_star = true })
  | none ↦ write_segment (codes "*") p
]

unfoldable pub parse_literal_segment : PathParser → Parsed PathParser
unfolding peek err_syntax parse_literal write_segment
parse_literal_segment p =
    if not (is_literal (peek p))
    then err (err_syntax p expected_path_value)
    else do (literal, q) ← parse_literal p; ok (write_segment literal q)

-- `parseSegments`, on less input, is the parameter of its callees.
module _ (segments : PathParser → Parsed PathParser) where
  unfoldable pub parse_capture : PathParser → Parsed PathParser
  unfolding consume write_segment
  parse_capture p = elim (consume b'=' p) [
    | some q ↦ segments q
    | none ↦ ok (write_segment (codes "*") p)
  ]

  unfoldable pub parse_variable : PathParser → Parsed PathParser
  unfolding parse_field_path parse_capture finish_variable
  parse_variable p = do
    (field_path, q) ← parse_field_path p
    if is_seen field_path q.variables
        then err (duplicate_variable field_path)
        else do r ← parse_capture q; finish_variable field_path q.segment_count r

  unfoldable pub parse_segment : PathParser → Parsed PathParser
  unfolding consume parse_star parse_variable parse_literal_segment
  parse_segment p = elim (consume b'*' p) [
    | some q ↦ ok (parse_star q)
    | none ↦ elim (consume b'{' p) [ some q ↦ parse_variable q | none ↦ parse_literal_segment p ]
  ]

unfoldable pub parse_segments : ℕ → PathParser → Parsed PathParser
unfolding parse_segment consume
parse_segments zero p = err out_of_fuel
parse_segments (suc fuel) p = do
  q ← parse_segment (parse_segments fuel) p
  elim (consume b'/' q) [
    | none ↦ ok q
    | some r ↦ if r.seen_double_star then err double_star_not_last else parse_segments fuel r
  ]

-- `parseTemplate` behind the ':' of a verb.
unfoldable pub verb_literal : PathParser → Parsed PathParser
unfolding parse_literal
verb_literal p = do
  (verb, q) ← parse_literal p
  ok (record q { output = q.output ++ (b':' ∷ verb) })

unfoldable pub parse_verb : PathParser → Parsed PathParser
unfolding consume verb_literal
parse_verb p = elim (consume b':' p) [ none ↦ ok p | some q ↦ verb_literal q ]

-- `parseTemplate` behind its first '/'; the fuel is the length of the template.
unfoldable pub template_body : ℕ → PathParser → Parsed PathParser
unfolding parse_segments parse_verb err_unexpected
template_body fuel p = do
  q ← parse_segments fuel p
  r ← parse_verb q
  if is_empty r.rest then ok r else err (err_unexpected r)

unfoldable pub parse_template : PathParser → Parsed PathParser
unfolding consume err_expected template_body
parse_template p = elim (consume b'/' p) [
  | none ↦ err (err_expected b'/' p)
  | some q ↦ template_body (length p.rest) q
]

abbrev pub start_parser : Bytes → PathParser
start_parser template = record {
  rest = template;
  pos = 0;
  seen_double_star = false;
  segment_count = 0;
  output = [];
  variables = [];
}

unfoldable pub parse_path_template : Bytes → Parsed (Bytes × List PathVariable)
unfolding parse_template
parse_path_template template = do
  p ← parse_template (start_parser template)
  ok (p.output, p.variables)
