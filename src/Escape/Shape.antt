-- ===== src/Escape/Shape.antt =====
-- What the encoder writes, whatever the input: `pathEscape`.
use vanguard_go.Escape.{
  PathEncoding, escape_from, escape_step, hex_bytes, hex_count, is_literal, is_variable,
  keeps_slash, path_escape,
}
use vanguard_go.Escape.Bytewise.{
  IsByte, byte-IsHexOf, is_literal_of_variable, is_variable-ne-percent,
}
use vanguard_go.Prelude.{
  All, All-append, Bool-cases, Bytes, [], arith, if◌then◌else◌, inl, inr, refl, suc, true, zero, ℕ,
  ◌∷◌, ◌≡◌,
}

-- The loop of the encoder alone, without the early return.
pub escape_from_of_count :
    (mode : PathEncoding) (s : Bytes) → hex_count s ≡ 0 → escape_from mode 0 s ≡ s
unfolding hex_count escape_from escape_step keeps_slash
escape_from_of_count mode [] h = refl
escape_from_of_count mode (c ∷ s) h =
    let v : is_variable c ≡ true = ground arith in
    ground (arith, is_variable-ne-percent c v, escape_from_of_count mode s)

pub path_escape-escape_from :
    (s : Bytes) (mode : PathEncoding) → path_escape s mode ≡ escape_from mode 0 s
unfolding path_escape
path_escape-escape_from s mode = ground (arith, escape_from_of_count mode s)

abbrev pub IsLiteral : ℕ → Type 0
IsLiteral c = is_literal c ≡ true

hex_bytes-IsLiteral : (c : ℕ) → IsByte c → All IsLiteral (hex_bytes c)
unfolding hex_bytes
hex_bytes-IsLiteral c b =
    let h = byte-IsHexOf c b in
    (unfold is_literal is_variable in refl, (h.high_literal, (h.low_literal, tt)))

escape_step-IsLiteral :
    (mode : PathEncoding) (c : ℕ) (s : Bytes) → IsByte c → All IsLiteral (escape_step mode c s)
unfolding escape_step
escape_step-IsLiteral mode c s b = elim (Bool-cases (keeps_slash mode c s)) [
  | inl k ↦ rw k (unfold is_literal is_variable in (refl, (refl, (refl, tt))))
  | inr k ↦ elim (Bool-cases (is_variable c)) [
    | inl v ↦ rw (k, v) (is_literal_of_variable c v, tt)
    | inr v ↦ rw (k, v) (hex_bytes-IsLiteral c b)
  ]
]

escape_from-IsLiteral :
    (mode : PathEncoding) (skip : ℕ) (s : Bytes)
    → All IsByte s
    → All IsLiteral (escape_from mode skip s)
unfolding escape_from
escape_from-IsLiteral mode skip [] h = tt
escape_from-IsLiteral mode (suc skip) (c ∷ s) (b, h) = escape_from-IsLiteral mode skip s h
escape_from-IsLiteral mode zero (c ∷ s) (b, h) =
    All-append IsLiteral (escape_step mode c s) _ (escape_step-IsLiteral mode c s b)
      (escape_from-IsLiteral mode (if keeps_slash mode c s then 2 else 0) s h)

-- An escaped text is a literal of the template grammar, in either mode: it holds unreserved bytes
-- and '%' only, so no '/', ':' or '*'.
pub path_escape-IsLiteral :
    (s : Bytes) (mode : PathEncoding) → All IsByte s → All IsLiteral (path_escape s mode)
path_escape-IsLiteral s mode h = rw path_escape-escape_from (escape_from-IsLiteral mode 0 s h)
