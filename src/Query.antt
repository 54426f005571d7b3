-- ===== src/Query.antt =====
-- encoding.go, `queryValues`, with url.QueryUnescape, and url.QueryEscape, by which the client's
-- query is written (`url.Values.Encode`). The source yields the pairs one by one; the list of them
-- is what a caller that takes all gets.
pub mod Sorted
pub mod RoundTrip
mod Tests
use vanguard_go.Escape.{hex_bytes, is_hex, is_variable, unhex_pair}
use vanguard_go.Prelude.{
  Bool, Bytes, List, Option, [], bytes_lt, codes, contains_byte, cut, if◌then◌else◌, is_empty, join,
  map, none, some, split, true, false, ℕ, ◌++◌, ◌&&◌, ◌==◌, ◌||◌, ◌∷◌,
}

abbrev pub cons_byte : ℕ → Option Bytes → Option Bytes
cons_byte c none = none
cons_byte c (some s) = some (c ∷ s)

-- A byte that starts no escape: '+' stands for a space.
abbrev pub plain_byte : ℕ → ℕ
plain_byte c = if c == b'+' then b' ' else c

-- url.QueryUnescape, none for an error
unfoldable pub query_unescape : Bytes → Option Bytes
unfolding is_hex unhex_pair
query_unescape [] = some []
query_unescape (c ∷ []) = if c == b'%' then none else some (plain_byte c ∷ [])
query_unescape (c ∷ (a ∷ [])) =
    let rest = query_unescape (a ∷ []) in if c == b'%' then none else cons_byte (plain_byte c) rest
query_unescape (c ∷ (a ∷ (b ∷ s))) = elim (c == b'%') [
  | true ↦ elim (is_hex a && is_hex b) [
    | true ↦ cons_byte (unhex_pair a b) (query_unescape s)
    | false ↦ none
  ]
  | false ↦ cons_byte (plain_byte c) (query_unescape (a ∷ (b ∷ s)))
]

-- url.QueryEscape
abbrev pub escape_byte : ℕ → Bytes
escape_byte c = if is_variable c then c ∷ [] else if c == b' ' then b'+' ∷ [] else hex_bytes c

unfoldable pub query_escape : Bytes → Bytes
unfolding hex_bytes is_variable
query_escape [] = []
query_escape (c ∷ s) = escape_byte c ++ query_escape s

-- A pair, none where the loop continues.
unfoldable pub query_pair : Bytes → Option (Bytes × Bytes)
unfolding query_unescape
query_pair pair =
    let (key, value) = cut b'=' pair in
    if is_empty pair || contains_byte pair b';' then none else elim (query_unescape key) [
      | none ↦ none
      | some k ↦ elim (query_unescape value) [ none ↦ none | some v ↦ some (k, v) ]
    ]

unfoldable pub pairs_of : List Bytes → List (Bytes × Bytes)
unfolding query_pair
pairs_of [] = []
pairs_of (pair ∷ pairs) = elim (query_pair pair) [
  | none ↦ pairs_of pairs
  | some kv ↦ kv ∷ pairs_of pairs
]

unfoldable pub query_values : Bytes → List (Bytes × Bytes)
unfolding pairs_of
query_values raw_query = pairs_of (split raw_query b'&')

-- A pair of url.Values.Encode
unfoldable pub encode_pair : Bytes × Bytes → Bytes
unfolding query_escape
encode_pair (key, value) = query_escape key ++ (b'=' ∷ query_escape value)

unfoldable pub encode_query : List (Bytes × Bytes) → Bytes
unfolding encode_pair
encode_query pairs = join (map encode_pair pairs) (codes "&")

-- url.Values.Encode, of the pairs in the order of the calls of Add: it goes through the keys in their
-- order, and through the values of a key in the order added.
abbrev pub insert_pair : Bytes × Bytes → List (Bytes × Bytes) → List (Bytes × Bytes)
insert_pair pair [] = pair ∷ []
insert_pair pair (other ∷ pairs) =
    let later = insert_pair pair pairs in
    if bytes_lt other.0 pair.0 then other ∷ later else pair ∷ (other ∷ pairs)

unfoldable pub sort_pairs : List (Bytes × Bytes) → List (Bytes × Bytes)
sort_pairs [] = []
sort_pairs (pair ∷ pairs) = insert_pair pair (sort_pairs pairs)

unfoldable pub encode_values : List (Bytes × Bytes) → Bytes
unfolding sort_pairs encode_query
encode_values pairs = encode_query (sort_pairs pairs)
