-- ===== src/Escape/RoundTrip.antt =====
-- `pathEscape` and `pathUnescape` together.
use vanguard_go.Escape.{
  PathEncoding, UnescapeError, check_from, is_hex_escape, keeps_slash, multi, out_of_range,
  path_escape, path_is_hex_slash, path_unescape, single, unescape_from, unescape_step, validate_hex,
}
use vanguard_go.Escape.Block.{keeps_slash-single, path_unescape-path_escape, read_back, read_step}
use vanguard_go.Escape.Bytewise.{IsByte}
use vanguard_go.Prelude.{
  All, Bool-cases, Bytes, Option-cases, Result, Result-cases, [], ap, arith, codes, err,
  if◌then◌else◌, inl, inr, none, ok, refl, suc, true, zero, ℕ, ◌++◌, ◌+◌, ◌==◌, ◌>>=◌, ◌∙◌, ◌∷◌,
  ◌≡◌, ◌≢◌,
}

read_back-single : (s : Bytes) → read_back single 0 s ≡ s
unfolding read_back read_step
read_back-single [] = refl
read_back-single (c ∷ s) = rw keeps_slash-single (ap (λ r. c ∷ r) (read_back-single s))

-- In the mode of a single segment, decoding the escaped form of any text of bytes gives the text.
pub unescape-escape-single :
    (s : Bytes) → All IsByte s → path_unescape (path_escape s single) single ≡ ok s
unescape-escape-single s h =
    path_unescape-path_escape s single h ∙ ap (λ r. ok r) (read_back-single s)

-- A text with each '/' and each "%2f" or "%2F" in it written "%2F".
abbrev pub slashes_escaped : ℕ → Bytes → Bytes
slashes_escaped skip [] = []
slashes_escaped (suc skip) (c ∷ s) = slashes_escaped skip s
slashes_escaped zero (c ∷ s) =
    let escaped = slashes_escaped 2 s in
    let plain = slashes_escaped 0 s in
    if path_is_hex_slash (c ∷ s)
    then codes "%2F" ++ escaped
    else if c == b'/'
    then codes "%2F" ++ plain
    else c ∷ plain

hex_slash-percent : (c : ℕ) (s : Bytes) → path_is_hex_slash (c ∷ s) ≡ true → c ≡ b'%'
unfolding path_is_hex_slash
hex_slash-percent c [] h = ground arith
hex_slash-percent c (a ∷ []) h = ground arith
hex_slash-percent c (a ∷ (b ∷ s)) h = ground arith

keeps_slash-multi : (c : ℕ) (s : Bytes) → keeps_slash multi c s ≡ path_is_hex_slash (c ∷ s)
unfolding keeps_slash
keeps_slash-multi c s = ground (arith, hex_slash-percent c s)

read_back-multi : (skip : ℕ) (s : Bytes) → read_back multi skip s ≡ slashes_escaped skip s
unfolding read_back read_step
read_back-multi skip [] = refl
read_back-multi (suc skip) (c ∷ s) = read_back-multi skip s
read_back-multi zero (c ∷ s) =
    rw keeps_slash-multi (ground (arith, read_back-multi 0 s, read_back-multi 2 s))

-- In the mode of several segments, decoding the escaped form of any text of bytes gives the text
-- with its slashes, escaped or not, written "%2F".
pub unescape-escape-multi :
    (s : Bytes)
    → All IsByte s
    → path_unescape (path_escape s multi) multi ≡ ok (slashes_escaped 0 s)
unescape-escape-multi s h =
    path_unescape-path_escape s multi h ∙ ap (λ r. ok r) (read_back-multi 0 s)

validate_hex-none :
    (s : Bytes)
    → validate_hex (b'%' ∷ s) ≡ none
    → (a : ℕ) × (b : ℕ) × (t : Bytes) × (s ≡ a ∷ (b ∷ t))
unfolding validate_hex is_hex_escape
validate_hex-none [] h = absurd (ground arith)
validate_hex-none (a ∷ []) h = absurd (ground arith)
validate_hex-none (a ∷ (b ∷ t)) h = (a, b, t, refl)

unescape_from-bind :
    (w : Bytes) (r : Result UnescapeError Bytes)
    → r ≢ err out_of_range
    → (r >>= λ rest. ok (w ++ rest)) ≢ err out_of_range
unescape_from-bind w (ok a) h e = ground arith
unescape_from-bind w (err x) h e = h e

unescape_step_in_range :
    (mode : PathEncoding) (a b : ℕ) (t : Bytes)
    → (w : Bytes) × (unescape_step mode (a ∷ (b ∷ t)) ≡ ok w)
unfolding unescape_step
unescape_step_in_range mode a b t = (_, refl)

unescape_from_in_range :
    (mode : PathEncoding) (skip n m : ℕ) (s : Bytes)
    → check_from skip n s ≡ ok m
    → unescape_from mode skip s ≢ err out_of_range
unfolding check_from unescape_from
unescape_from_in_range mode skip n m [] h = λ e. ground arith
unescape_from_in_range mode (suc skip) n m (c ∷ s) h = unescape_from_in_range mode skip n m s h
unescape_from_in_range mode zero n m (c ∷ s) h = elim (Bool-cases (c == b'%')) [
  | inl p ↦ elim (Option-cases (validate_hex (c ∷ s))) [
    | inl v ↦
        let cp : c ≡ b'%' = ground arith in
        let checked : check_from 2 (n + 1) s ≡ ok m = ground arith in
        let (a, b, t, e) = validate_hex-none s (rw cp at v) in
        let (w, step) = unescape_step_in_range mode a b t in
        let read : unescape_step mode s ≡ ok w = rw e step in
        rw p (rw read (unescape_from-bind w _ (unescape_from_in_range mode 2 (n + 1) m s checked)))
    | inr (x, v) ↦ absurd (ground arith)
  ]
  | inr p ↦
      rw p (unescape_from-bind (c ∷ []) _ (unescape_from_in_range mode 0 n m s (ground arith)))
]

check_from_in_range : (skip n : ℕ) (s : Bytes) → check_from skip n s ≢ err out_of_range
unfolding check_from validate_hex
check_from_in_range skip n [] e = ground arith
check_from_in_range (suc skip) n (c ∷ s) e = check_from_in_range skip n s e
check_from_in_range zero n (c ∷ s) e =
    ground (arith, check_from_in_range 2 (n + 1) s, check_from_in_range 0 n s)

-- Decoding never indexes past the end of its input: it returns a text or an invalid escape.
pub path_unescape_in_range :
    (s : Bytes) (mode : PathEncoding) → path_unescape s mode ≢ err out_of_range
unfolding path_unescape
path_unescape_in_range s mode = elim (Result-cases (check_from 0 0 s)) [
  | inl (n, c) ↦ rw c (λ e. ground (arith, unescape_from_in_range mode 0 0 n s c))
  | inr (x, c) ↦ rw c (λ e. ground (arith, check_from_in_range 0 0 s))
]
