-- ===== src/Escape/Block.antt =====
-- One round of the encoder, read back by one round of the decoder, in both modes.
use vanguard_go.Escape.{
  PathEncoding, UnescapeError, check_from, escape_from, escape_step, hex_bytes, is_hex_escape,
  is_multi, is_variable, keeps_slash, multi, path_escape, path_is_hex_slash, path_unescape, single,
  unescape_from, unescape_step, upperhex_at, validate_hex,
}
use vanguard_go.Escape.Bytewise.{
  IsByte, byte-IsHexOf, is_literal-IsPlain, is_literal_of_variable, is_variable-ne-percent,
}
use vanguard_go.Escape.Decode.{decode, path_unescape-decode}
use vanguard_go.Escape.Shape.{path_escape-escape_from}
use vanguard_go.Prelude.{
  All, Bool, Bool-cases, Bytes, Result, [], append-nil, append_assoc, arith, codes, err, false,
  if◌then◌else◌, inl, inr, not, ok, refl, suc, true, zero, ℕ, ◌%◌, ◌&&◌, ◌++◌, ◌+◌, ◌/◌, ◌==◌,
  ◌>>=◌, ◌||◌, ◌∙◌, ◌∷◌, ◌≡◌,
}
use vanguard_go.Prelude.Table.{table_holds, table_holds_at}

-- What the decoder reads for one round of the encoder: the byte, but for a slash in the mode of
-- several segments, which stays escaped.
unfoldable pub read_step : PathEncoding → ℕ → Bytes → Bytes
read_step mode c s =
    if keeps_slash mode c s || (is_multi mode && c == b'/') then codes "%2F" else c ∷ []

unfoldable pub read_back : PathEncoding → ℕ → Bytes → Bytes
read_back mode skip [] = []
read_back mode (suc skip) (c ∷ s) = read_back mode skip s
read_back mode zero (c ∷ s) =
    read_step mode c s ++ read_back mode (if keeps_slash mode c s then 2 else 0) s

-- The decoder on the digits of a byte.
check_hex_bytes :
    (c n : ℕ) (t : Bytes) → IsByte c → check_from 0 n (hex_bytes c ++ t) ≡ check_from 0 (n + 1) t
unfolding check_from validate_hex is_hex_escape hex_bytes
check_hex_bytes c n t b = let h = byte-IsHexOf c b in rw (h.high, h.low)

unescape_hex_bytes :
    (c : ℕ) (t : Bytes)
    → IsByte c
    → unescape_step single (upperhex_at (c / 16) ∷ (upperhex_at (c % 16) ∷ t)) ≡ ok (c ∷ [])
unfolding unescape_step
unescape_hex_bytes c t b = rw (byte-IsHexOf c b).value

-- A byte whose digits spell an escaped slash is the slash.
hex_slash_ok : ℕ → Bool
hex_slash_ok c =
    let slash = path_is_hex_slash (hex_bytes c) in if c == b'/' then slash else not slash

hex_slash_table : table_holds hex_slash_ok 256 ≡ true
unfolding table_holds hex_slash_ok path_is_hex_slash hex_bytes
hex_slash_table = refl

path_is_hex_slash-hex_bytes :
    (c : ℕ) (t : Bytes) → IsByte c → path_is_hex_slash (hex_bytes c ++ t) ≡ (c == b'/')
unfolding path_is_hex_slash hex_bytes hex_slash_ok
path_is_hex_slash-hex_bytes c t b =
    let h = table_holds_at hex_slash_ok 256 c b hex_slash_table in ground arith

unescape_hex_bytes_multi :
    (c : ℕ) (t : Bytes)
    → IsByte c
    → unescape_step multi (upperhex_at (c / 16) ∷ (upperhex_at (c % 16) ∷ t))
      ≡ ok (if c == b'/' then codes "%2F" else c ∷ [])
unfolding unescape_step hex_bytes
unescape_hex_bytes_multi c t b =
    rw (path_is_hex_slash-hex_bytes c t b) (rw (byte-IsHexOf c b).value refl)

-- What the decoder does with one round of the encoder.
pub record IsReadBy (mode : PathEncoding) (written read : Bytes) : Type 0 where
  pub checks : (n : ℕ) (t : Bytes) → (m : ℕ) × (check_from 0 n (written ++ t) ≡ check_from 0 m t)
  pub reads :
      (t : Bytes)
      → unescape_from mode 0 (written ++ t) ≡ (unescape_from mode 0 t >>= λ rest. ok (read ++ rest))

bind_ok : (r : Result UnescapeError Bytes) → r ≡ (r >>= λ rest. ok ([] ++ rest))
bind_ok (ok a) = refl
bind_ok (err e) = refl

bind_append :
    (r : Result UnescapeError Bytes) (a b : Bytes)
    → ((r >>= λ rest. ok (b ++ rest)) >>= λ rest. ok (a ++ rest))
      ≡ (r >>= λ rest. ok ((a ++ b) ++ rest))
bind_append (ok r) a b = rw append_assoc
bind_append (err e) a b = refl

IsReadBy-append :
    {mode : PathEncoding} {w v r q : Bytes}
    → IsReadBy mode w r
    → IsReadBy mode v q
    → IsReadBy mode (w ++ v) (r ++ q)
IsReadBy-append {mode} {w} {v} {r} {q} f g = record {
  checks = λ n t.
      let (m, e) = f.checks n (v ++ t) in let (k, d) = g.checks m t in (k, rw append_assoc (e ∙ d));
  reads = λ t. rw append_assoc (f.reads (v ++ t) ∙ rw (g.reads t) (bind_append _ r q));
}

decode_of_IsReadBy : {mode : PathEncoding} {w r : Bytes} → IsReadBy mode w r → decode mode w ≡ ok r
unfolding decode check_from unescape_from
decode_of_IsReadBy {mode} {w} {r} f =
    let (m, e) = f.checks 0 [] in
    let checked : check_from 0 0 w ≡ ok m = rw append-nil at e in
    let read : unescape_from mode 0 w ≡ ok (r ++ []) = rw append-nil at (f.reads []) in
    rw (checked, read) (rw append-nil)

plain-IsReadBy :
    (mode : PathEncoding) (c : ℕ) → is_variable c ≡ true → IsReadBy mode (c ∷ []) (c ∷ [])
unfolding check_from unescape_from
plain-IsReadBy mode c v =
    let e : (c == b'%') ≡ false = ground (arith, is_variable-ne-percent c v) in
    record { checks = λ n t. (n, rw e refl); reads = λ t. rw e refl }

hex-IsReadBy_single : (c : ℕ) → IsByte c → IsReadBy single (hex_bytes c) (c ∷ [])
unfolding unescape_from
hex-IsReadBy_single c b = record {
  checks = λ n t. (n + 1, check_hex_bytes c n t b);
  reads = λ t. unfold hex_bytes in rw (unescape_hex_bytes c t b) refl;
}

hex-IsReadBy_multi :
    (c : ℕ) → IsByte c → IsReadBy multi (hex_bytes c) (if c == b'/' then codes "%2F" else c ∷ [])
unfolding unescape_from
hex-IsReadBy_multi c b = record {
  checks = λ n t. (n + 1, check_hex_bytes c n t b);
  reads = λ t. unfold hex_bytes in rw (unescape_hex_bytes_multi c t b) refl;
}

slash-IsReadBy : IsReadBy multi (codes "%2F") (codes "%2F")
unfolding unescape_from unescape_step check_from validate_hex path_is_hex_slash
slash-IsReadBy = record { checks = λ n t. (n + 1, refl); reads = λ t. refl }

pub keeps_slash-single : (c : ℕ) (s : Bytes) → keeps_slash single c s ≡ false
unfolding keeps_slash
keeps_slash-single c s = ground arith

variable-ne-slash : (c : ℕ) → is_variable c ≡ true → (c == b'/') ≡ false
variable-ne-slash c v =
    let p = is_literal-IsPlain c (is_literal_of_variable c v) in ground (arith, p.0)

pub escape_step-IsReadBy :
    (mode : PathEncoding) (c : ℕ) (s : Bytes)
    → IsByte c
    → IsReadBy mode (escape_step mode c s) (read_step mode c s)
unfolding escape_step read_step
escape_step-IsReadBy single c s b = rw (keeps_slash-single c s) (elim (Bool-cases (is_variable c)) [
  | inl v ↦ rw v (plain-IsReadBy single c v)
  | inr v ↦ rw v (hex-IsReadBy_single c b)
])
escape_step-IsReadBy multi c s b = elim (Bool-cases (keeps_slash multi c s)) [
  | inl k ↦ rw k slash-IsReadBy
  | inr k ↦ rw k (elim (Bool-cases (is_variable c)) [
    | inl v ↦ rw (v, variable-ne-slash c v) (plain-IsReadBy multi c v)
    | inr v ↦ rw v (hex-IsReadBy_multi c b)
  ])
]

-- The whole text, from one round to the next.
escape_from-IsReadBy :
    (mode : PathEncoding) (skip : ℕ) (s : Bytes)
    → All IsByte s
    → IsReadBy mode (escape_from mode skip s) (read_back mode skip s)
unfolding escape_from read_back
escape_from-IsReadBy mode skip [] h = record { checks = λ n t. (n, refl); reads = λ t. bind_ok _ }
escape_from-IsReadBy mode (suc skip) (c ∷ s) (b, h) = escape_from-IsReadBy mode skip s h
escape_from-IsReadBy mode zero (c ∷ s) (b, h) =
    IsReadBy-append (escape_step-IsReadBy mode c s b)
      (escape_from-IsReadBy mode (if keeps_slash mode c s then 2 else 0) s h)

-- Decoding what the encoder wrote gives what `read_back` says, in both modes.
pub path_unescape-path_escape :
    (s : Bytes) (mode : PathEncoding)
    → All IsByte s
    → path_unescape (path_escape s mode) mode ≡ ok (read_back mode 0 s)
path_unescape-path_escape s mode h =
    rw (path_escape-escape_from, path_unescape-decode)
      (decode_of_IsReadBy (escape_from-IsReadBy mode 0 s h))
