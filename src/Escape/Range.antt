-- ===== src/Escape/Range.antt =====
-- What the decoder returns is a text of bytes.
use vanguard_go.Escape.{
  PathEncoding, UnescapeError, check_from, is_multi, path_is_hex_slash, path_unescape,
  unescape_from, unescape_step, unhex_pair,
}
use vanguard_go.Escape.Bytewise.{IsByte, unhex_pair-IsByte}
use vanguard_go.Prelude.{
  All, All-append, Bool-cases, Bytes, Result, Result-cases, [], arith, codes, err, inl, inr, ok,
  refl, suc, zero, ℕ, ◌&&◌, ◌++◌, ◌==◌, ◌>>=◌, ◌∷◌, ◌≡◌,
}

unescape_step-IsByte :
    (mode : PathEncoding) (s w : Bytes) → unescape_step mode s ≡ ok w → All IsByte w
unfolding unescape_step
unescape_step-IsByte mode [] w h = absurd (ground arith)
unescape_step-IsByte mode (a ∷ []) w h = absurd (ground arith)
unescape_step-IsByte mode (a ∷ (b ∷ t)) w h =
    let slash = is_multi mode && path_is_hex_slash (b'%' ∷ (a ∷ (b ∷ t))) in
    elim (Bool-cases slash) [
      | inl k ↦
          let e : w ≡ codes "%2F" = ground arith in
          rw e (omega arith, (omega arith, (omega arith, tt)))
      | inr k ↦ let e : w ≡ unhex_pair a b ∷ [] = ground arith in rw e (unhex_pair-IsByte a b, tt)
    ]

bind_ok_inv :
    (w v : Bytes) (r : Result UnescapeError Bytes)
    → (r >>= λ rest. ok (w ++ rest)) ≡ ok v
    → (rest : Bytes) × (r ≡ ok rest) × (v ≡ w ++ rest)
bind_ok_inv w v (ok a) h = (a, refl, ground arith)
bind_ok_inv w v (err e) h = absurd (ground arith)

unescape_from-IsByte :
    (mode : PathEncoding) (skip : ℕ) (s v : Bytes)
    → All IsByte s
    → unescape_from mode skip s ≡ ok v
    → All IsByte v
unfolding unescape_from
unescape_from-IsByte mode skip [] v b h = let e : v ≡ [] = ground arith in rw e tt
unescape_from-IsByte mode (suc skip) (c ∷ s) v b h = unescape_from-IsByte mode skip s v b.1 h
unescape_from-IsByte mode zero (c ∷ s) v b h = elim (Bool-cases (c == b'%')) [
  | inl p ↦ elim (Result-cases (unescape_step mode s)) [
    | inl (w, step) ↦
        let (rest, e, d) = bind_ok_inv w v (unescape_from mode 2 s) (rw (p, step) at h) in
        rw d (
          All-append IsByte w rest (unescape_step-IsByte mode s w step)
            (unescape_from-IsByte mode 2 s rest b.1 e))
    | inr (x, step) ↦ absurd (ground arith)
  ]
  | inr p ↦
      let (rest, e, d) = bind_ok_inv (c ∷ []) v (unescape_from mode 0 s) (rw p at h) in
      rw d (b.0, unescape_from-IsByte mode 0 s rest b.1 e)
]

-- Decoding a text of bytes gives a text of bytes.
pub path_unescape-IsByte :
    (s v : Bytes) (mode : PathEncoding) → All IsByte s → path_unescape s mode ≡ ok v → All IsByte v
unfolding path_unescape
path_unescape-IsByte s v mode b h = elim (Result-cases (check_from 0 0 s)) [
  | inl (n, c) ↦ elim (Bool-cases (n == 0)) [
    | inl z ↦ let e : s ≡ v = ground arith in rw e at b
    | inr z ↦ unescape_from-IsByte mode 0 s v b (ground arith)
  ]
  | inr (x, c) ↦ absurd (ground arith)
]
