-- ===== src/Query/Tests.antt =====
-- Queries on concrete texts.
use vanguard_go.Prelude.{All, Bytes, List, [], arith, codes, refl, ◌∷◌, ◌≡◌}
use vanguard_go.Query.{encode_query, query_values, query_pair, query_unescape, pairs_of}
use vanguard_go.Query.RoundTrip.{IsBytePair, query_values-encode_query}
use vanguard_go.Escape.{is_hex, unhex_pair}

abbrev pairs : List (Bytes × Bytes)
pairs = (codes "a", codes "x&") ∷ ((codes "b", []) ∷ [])

pairs-IsBytePair : All IsBytePair pairs
pairs-IsBytePair =
    (((omega arith, tt), (omega arith, (omega arith, tt))), (((omega arith, tt), tt), tt))

query_values_of_example :
    query_values (codes "a=x+y&&b=%2&c;d=1&e=%41")
    ≡ (codes "a", codes "x y") ∷ ((codes "e", codes "A") ∷ [])
unfolding query_values pairs_of query_pair query_unescape is_hex unhex_pair
query_values_of_example = refl

query_values-encode_query_example : query_values (encode_query pairs) ≡ pairs
query_values-encode_query_example = query_values-encode_query pairs pairs-IsBytePair
