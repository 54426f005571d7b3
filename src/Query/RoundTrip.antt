-- ===== src/Query/RoundTrip.antt =====
-- A query that the client writes is read as its pairs.
use vanguard_go.Escape.{hex_bytes, is_literal, is_variable, upperhex_at}
use vanguard_go.Escape.Bytewise.{IsByte, byte-IsHexOf}
use vanguard_go.Prelude.{
  All, All-append, All-imp, Bool-cases, Bytes, Lacks, List, [], ap, arith, codes, contains_byte,
  cut, false, inl, inr, is_empty, join, map, refl, some, split, true, ℕ, ◌%◌, ◌++◌, ◌/◌, ◌==◌, ◌∙◌,
  ◌∷◌, ◌≡◌, ◌≢◌,
}
use vanguard_go.Prelude.Cuts.{cut-append}
use vanguard_go.Query.{
  cons_byte, encode_pair, encode_query, escape_byte, pairs_of, plain_byte, query_escape, query_pair,
  query_unescape, query_values,
}

-- The bytes that structure a query.
abbrev IsInner : ℕ → Type 0
IsInner c = (c ≢ b'&') × (c ≢ b';') × (c ≢ b'=')

variable-IsInner : (c : ℕ) → is_variable c ≡ true → IsInner c
unfolding is_variable
variable-IsInner c h = (λ e. ground arith, λ e. ground arith, λ e. ground arith)

literal-IsInner : (c : ℕ) → is_literal c ≡ true → IsInner c
unfolding is_literal is_variable
literal-IsInner c h = (λ e. ground arith, λ e. ground arith, λ e. ground arith)

hex_bytes-IsInner : (c : ℕ) → IsByte c → All IsInner (hex_bytes c)
unfolding hex_bytes
hex_bytes-IsInner c h =
    let x = byte-IsHexOf c h in
    let high = literal-IsInner (upperhex_at (c / 16)) x.high_literal in
    let low = literal-IsInner (upperhex_at (c % 16)) x.low_literal in
    let percent : IsInner b'%' = (λ d. omega arith, λ d. omega arith, λ d. omega arith) in
    (percent, (high, (low, tt)))

escape_byte-IsInner : (c : ℕ) → IsByte c → All IsInner (escape_byte c)
escape_byte-IsInner c h = elim (Bool-cases (is_variable c)) [
  | inl v ↦ rw v (variable-IsInner c v, tt)
  | inr n ↦ elim (Bool-cases (c == b' ')) [
    | inl e ↦ rw (n, e) ((λ d. omega arith, λ d. omega arith, λ d. omega arith), tt)
    | inr e ↦ rw (n, e) (hex_bytes-IsInner c h)
  ]
]

query_escape-IsInner : (s : Bytes) → All IsByte s → All IsInner (query_escape s)
unfolding query_escape
query_escape-IsInner [] h = tt
query_escape-IsInner (c ∷ s) (b, h) =
    All-append IsInner (escape_byte c) (query_escape s) (escape_byte-IsInner c b)
      (query_escape-IsInner s h)

unescape_plain :
    (c : ℕ) (s : Bytes)
    → c ≢ b'%'
    → query_unescape (c ∷ s) ≡ cons_byte (plain_byte c) (query_unescape s)
unfolding query_unescape
unescape_plain c [] h = ground (arith, h)
unescape_plain c (a ∷ []) h = ground (arith, h)
unescape_plain c (a ∷ (b ∷ s)) h = ground (arith, h)

unescape_escaped :
    (c : ℕ) (s : Bytes)
    → IsByte c
    → query_unescape (escape_byte c ++ s) ≡ cons_byte c (query_unescape s)
unescape_escaped c s h = elim (Bool-cases (is_variable c)) [
  | inl v ↦
      let p : c ≢ b'%' = λ e. unfold is_variable in ground (arith, v, e) in
      let q : plain_byte c ≡ c = unfold is_variable in ground (arith, v) in
      rw v (unescape_plain c s p ∙ ap (λ x. cons_byte x (query_unescape s)) q)
  | inr n ↦ elim (Bool-cases (c == b' ')) [
    | inl e ↦
        let d : b' ' ≡ c = ground (arith, e) in
        rw (n, e)
          (unescape_plain b'+' s (λ z. omega arith) ∙ ap (λ x. cons_byte x (query_unescape s)) d)
    | inr e ↦
        let x = byte-IsHexOf c h in
        rw (n, e) (unfold query_unescape hex_bytes in ground (arith, x.high, x.low, x.value))
  ]
]

unescape-escape : (s : Bytes) → All IsByte s → query_unescape (query_escape s) ≡ some s
unfolding query_escape
unescape-escape [] h = unfold query_unescape in refl
unescape-escape (c ∷ s) (b, h) =
    unescape_escaped c (query_escape s) b ∙ ap (cons_byte c) (unescape-escape s h)

inner-Lacks_equals : (s : Bytes) → All IsInner s → Lacks b'=' s
inner-Lacks_equals s = All-imp IsInner (λ c. c ≢ b'=') s (λ c h. h.2)

abbrev IsPart : ℕ → Type 0
IsPart c = (c ≢ b'&') × (c ≢ b';')

inner_parts : (s : Bytes) → All IsInner s → All IsPart s
inner_parts s = All-imp IsInner IsPart s (λ c h. (h.0, h.1))

Lacks-contains_byte : (b : ℕ) (s : Bytes) → Lacks b s → contains_byte s b ≡ false
Lacks-contains_byte b [] h = refl
Lacks-contains_byte b (c ∷ s) h = ground (arith, Lacks-contains_byte b s h.1)

append_cons-is_empty : (s t : Bytes) (c : ℕ) → is_empty (s ++ (c ∷ t)) ≡ false
append_cons-is_empty [] t c = refl
append_cons-is_empty (_ ∷ s) t c = refl

abbrev pub IsBytePair : Bytes × Bytes → Type 0
IsBytePair (key, value) = All IsByte key × All IsByte value

encode_pair-IsPart : (kv : Bytes × Bytes) → IsBytePair kv → All IsPart (encode_pair kv)
unfolding encode_pair
encode_pair-IsPart (key, value) (hk, hv) =
    All-append IsPart (query_escape key) (b'=' ∷ query_escape value)
      (inner_parts (query_escape key) (query_escape-IsInner key hk))
      (
        (λ d. omega arith, λ d. omega arith),
        inner_parts (query_escape value) (query_escape-IsInner value hv),
      )

query_pair_halves :
    (pair key value : Bytes) (k v : Bytes)
    → cut b'=' pair ≡ (key, value)
    → is_empty pair ≡ false
    → contains_byte pair b';' ≡ false
    → query_unescape key ≡ some k
    → query_unescape value ≡ some v
    → query_pair pair ≡ some (k, v)
unfolding query_pair
query_pair_halves pair key value k v hc he hs hk hv = ground (arith, hc, he, hs, hk, hv)

query_pair-encode_pair :
    (kv : Bytes × Bytes) → IsBytePair kv → query_pair (encode_pair kv) ≡ some kv
unfolding encode_pair
query_pair-encode_pair (key, value) (hk, hv) =
    let part = encode_pair-IsPart (key, value) (hk, hv) in
    let pair = query_escape key ++ (b'=' ∷ query_escape value) in
    let whole = append_cons-is_empty (query_escape key) (query_escape value) b'=' in
    let plain =
      Lacks-contains_byte b';' pair (All-imp IsPart (λ c. c ≢ b';') pair (λ c h. h.1) part) in
    let halves =
      cut-append b'=' (query_escape key) (query_escape value)
        (inner-Lacks_equals (query_escape key) (query_escape-IsInner key hk)) in
    query_pair_halves pair (query_escape key) (query_escape value) key value halves whole plain
      (unescape-escape key hk) (unescape-escape value hv)

split-last : (b : ℕ) (s : Bytes) → Lacks b s → split s b ≡ s ∷ []
split-last b [] h = refl
split-last b (c ∷ s) h = ground (arith, split-last b s h.1)

split-cons : (b : ℕ) (s t : Bytes) → Lacks b s → split (s ++ (b ∷ t)) b ≡ s ∷ split t b
split-cons b [] t h = ground arith
split-cons b (c ∷ s) t h = ground (arith, split-cons b s t h.1)

pairs_of-cons :
    (kv : Bytes × Bytes) (rest : List Bytes)
    → IsBytePair kv
    → pairs_of (encode_pair kv ∷ rest) ≡ kv ∷ pairs_of rest
unfolding pairs_of
pairs_of-cons kv rest h = rw (pairs_of, query_pair-encode_pair kv h) refl

encode_pair-Lacks : (kv : Bytes × Bytes) → IsBytePair kv → Lacks b'&' (encode_pair kv)
encode_pair-Lacks kv h =
    All-imp IsPart (λ c. c ≢ b'&') (encode_pair kv) (λ c p. p.0) (encode_pair-IsPart kv h)

-- The pairs that a client's query is made of, every byte of which is below 256, are those that
-- the server reads from it, in their order and none left out or added, also when a key or a value
-- is empty or contains the query's separators.
pub query_values-encode_query :
    (pairs : List (Bytes × Bytes))
    → All IsBytePair pairs
    → query_values (encode_query pairs) ≡ pairs
unfolding query_values encode_query
query_values-encode_query [] h = unfold pairs_of query_pair in refl
query_values-encode_query (kv ∷ []) (h, _) =
    rw (split-last b'&' (encode_pair kv) (encode_pair-Lacks kv h), pairs_of-cons kv [] h)
      (unfold pairs_of in refl)
query_values-encode_query (kv ∷ (x ∷ xs)) (h, hs) =
    let rest = join (map encode_pair (x ∷ xs)) (codes "&") in
    rw (split-cons b'&' (encode_pair kv) rest (encode_pair-Lacks kv h)) (
      pairs_of-cons kv (split rest b'&') h
      ∙ ap (λ r. kv ∷ r) (query_values-encode_query (x ∷ xs) hs))
