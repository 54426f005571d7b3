-- ===== src/Template/Fuel.antt =====
-- `parseFieldPath` moves on in each round of its loop, so its fuel suffices.
use vanguard_go.Escape.{is_ident, is_ident_start}
use vanguard_go.Prelude.{
  Bool-cases, Bytes, Option-cases, arith, err, inl, inr, length, none, ok, refl, some, suc, true,
  zero, ℕ, ◌+◌, ◌<◌, ◌≡◌, ◌≢◌, ◌⊎◌,
}
use vanguard_go.Template.{
  PathParser, consume, consume_run, err_syntax, err_unexpected, field_path_from, finish_literal,
  literal_error, out_of_fuel, parse_field_path, parse_literal, peek,
}
use vanguard_go.Template.Steps.{Moves, Moves-trans, consume-Moves, consume_run-Moves}

-- Moving on: what follows a field path, and what is left for the segments of a capture.
consume-ok :
    (c : ℕ) (p : PathParser) → (consume c p ≡ none) ⊎ ((q : PathParser) × (consume c p ≡ some q))
consume-ok c p = Option-cases (consume c p)

is_ident_first : (c : ℕ) → is_ident_start c ≡ true → is_ident c ≡ true
unfolding is_ident
is_ident_first c h = rw h

field_path_from-Moves :
    (fuel start : ℕ) (input : Bytes) (p q : PathParser) (t : Bytes)
    → field_path_from fuel start input p ≡ ok (t, q)
    → Moves p q
unfolding field_path_from
field_path_from-Moves zero start input p q t h = absurd (ground arith)
field_path_from-Moves (suc fuel) start input p q t h = elim (Bool-cases (is_ident_start (peek p))) [
  | inr e ↦ absurd (ground arith)
  | inl e ↦
      let m = consume_run-Moves is_ident p (is_ident_first (peek p) e) (unfold is_ident in refl) in
      elim (consume-ok b'.' (consume_run is_ident p).1) [
        | inl d ↦ let same : (consume_run is_ident p).1 ≡ q = ground arith in rw (← same) m
        | inr (r, d) ↦
            let next : field_path_from fuel start input r ≡ ok (t, q) = ground arith in
            Moves-trans m (
              Moves-trans (consume-Moves b'.' _ r d)
                (field_path_from-Moves fuel start input r q t next))
      ]
]

pub parse_field_path-Moves :
    (p q : PathParser) (t : Bytes) → parse_field_path p ≡ ok (t, q) → Moves p q
unfolding parse_field_path
parse_field_path-Moves p q t h = field_path_from-Moves (length p.rest + 1) p.pos p.rest p q t h

field_path_from_fuel :
    (fuel start : ℕ) (input : Bytes) (p : PathParser)
    → length p.rest < fuel
    → field_path_from fuel start input p ≢ err out_of_fuel
unfolding field_path_from
field_path_from_fuel zero start input p l h = elim l [ ]
field_path_from_fuel (suc fuel) start input p l h = elim (Bool-cases (is_ident_start (peek p))) [
  | inr e ↦ ground arith
  | inl e ↦
      let m = consume_run-Moves is_ident p (is_ident_first (peek p) e) (unfold is_ident in refl) in
      elim (consume-ok b'.' (consume_run is_ident p).1) [
        | inl d ↦ ground arith
        | inr (r, d) ↦
            let m' = consume-Moves b'.' (consume_run is_ident p).1 r d in
            field_path_from_fuel fuel start input r (omega (arith, m.shorter, m'.shorter))
              (ground arith)
      ]
]

pub parse_field_path_fuel : (p : PathParser) → parse_field_path p ≢ err out_of_fuel
unfolding parse_field_path
parse_field_path_fuel p = field_path_from_fuel (length p.rest + 1) p.pos p.rest p (omega arith)

finish_literal_fuel :
    (start : ℕ) (run : Bytes) (p : PathParser) → finish_literal start run p ≢ err out_of_fuel
unfolding finish_literal literal_error err_unexpected err_syntax
finish_literal_fuel start run p h = ground arith

pub parse_literal_fuel : (p : PathParser) → parse_literal p ≢ err out_of_fuel
unfolding parse_literal
parse_literal_fuel p = finish_literal_fuel p.pos _ _
