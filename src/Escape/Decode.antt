-- ===== src/Escape/Decode.antt =====
-- The decoder of `pathUnescape` without its early return for a text that holds no escape.
use vanguard_go.Escape.{
  PathEncoding, UnescapeError, check_from, path_unescape, unescape_from, validate_hex,
}
use vanguard_go.Prelude.{
  Bool-cases, Bytes, Option-cases, Result, Result-cases, [], arith, inl, inr, ok, refl, suc, sym,
  zero, ℕ, ◌+◌, ◌==◌, ◌>>=◌, ◌∷◌, ◌≡◌, ◌≤◌,
}

-- The decoder without the early return.
unfoldable pub decode : PathEncoding → Bytes → Result UnescapeError Bytes
decode mode s = do percent_count ← check_from 0 0 s; unescape_from mode 0 s

-- The checking loop counts no '%' only where there is none.
check_from-le : (skip n m : ℕ) (s : Bytes) → check_from skip n s ≡ ok m → n ≤ m
unfolding check_from
check_from-le skip n m [] h = ground arith
check_from-le (suc skip) n m (c ∷ s) h = check_from-le skip n m s h
check_from-le zero n m (c ∷ s) h = elim (Bool-cases (c == b'%')) [
  | inl e ↦ elim (Option-cases (validate_hex (c ∷ s))) [
    | inl v ↦ ground (arith, check_from-le 2 (n + 1) m s)
    | inr (x, v) ↦ absurd (ground arith)
  ]
  | inr e ↦ ground (arith, check_from-le 0 n m s)
]

unescape_from_of_zero :
    (mode : PathEncoding) (s : Bytes) → check_from 0 0 s ≡ ok 0 → unescape_from mode 0 s ≡ ok s
unfolding check_from unescape_from
unescape_from_of_zero mode [] h = refl
unescape_from_of_zero mode (c ∷ s) h = elim (Bool-cases (c == b'%')) [
  | inl e ↦ elim (Option-cases (validate_hex (c ∷ s))) [
    | inl v ↦ absurd (ground (arith, check_from-le 2 1 0 s))
    | inr (x, v) ↦ absurd (ground arith)
  ]
  | inr e ↦ ground (arith, unescape_from_of_zero mode s)
]

pub path_unescape-decode : (s : Bytes) (mode : PathEncoding) → path_unescape s mode ≡ decode mode s
unfolding path_unescape decode
path_unescape-decode s mode = elim (Result-cases (check_from 0 0 s)) [
  | inl (n, e) ↦ rw e (elim (Bool-cases (n == 0)) [
    | inl z ↦
        let zn : n ≡ 0 = ground arith in rw z (sym (unescape_from_of_zero mode s (rw zn at e)))
    | inr z ↦ rw z
  ])
  | inr (x, e) ↦ rw e
]
