-- ===== src/Route/Trie/Tests.antt =====
-- Runs of the trie.
use vanguard_go.Escape.{is_variable, path_escape, path_unescape}
use vanguard_go.Prelude.{Bytes, List, [], codes, inr, none, refl, some, ℕ, ◌∷◌, ◌≡◌}
use vanguard_go.Prelude.Map.{Map}
use vanguard_go.Route.Trie.{Trie, empty_trie, find_target, insert, match}
use vanguard_go.Route.Trie.Covers.{Covers, done, literal, star}
use vanguard_go.Route.Trie.Insert.{methods_at}
use vanguard_go.Route.Trie.Matching.{
  Finds, Picks, Reads, Serves, find_target-Finds, match-Serves, match-absent,
}
use vanguard_go.Route.Trie.Paths.{segments_of}
use vanguard_go.Segment.{canonical_segment}

abbrev routes : Trie ℕ
routes =
    (insert (codes "GET") (codes "/v1/shelves/*") 1
      (insert (codes "POST") (codes "/v1/shelves/*:clear") 2
        (insert (codes "GET") (codes "/v1/**") 3 empty_trie).0).0).0

match_star : (match (codes "/v1/shelves/a%2Fb") (codes "GET") routes).0 ≡ some 1
unfolding match insert path_escape path_unescape is_variable
match_star = refl

match_verb : (match (codes "/v1/shelves/a:clear") (codes "POST") routes).0 ≡ some 2
unfolding match insert path_escape path_unescape is_variable
match_verb = refl

match_double_star : (match (codes "/v1/books/a/b") (codes "GET") routes).0 ≡ some 3
unfolding match insert path_escape path_unescape is_variable
match_double_star = refl

match_colon : (match (codes "/v1/shelves/a:b") (codes "GET") routes).0 ≡ some 1
unfolding match insert path_escape path_unescape is_variable
match_colon = refl

match-none : match (codes "/v2/shelves/a") (codes "GET") routes ≡ (none, none)
unfolding match insert path_escape path_unescape is_variable
match-none = refl

shelf_segments : List Bytes
shelf_segments = codes "v1" ∷ (codes "shelves" ∷ (codes "a" ∷ []))

find_target-Finds_example :
    Finds
      (segments_of (codes "/v1/shelves/a"))
      []
      (codes "GET")
      routes
      (find_target (codes "/v1/shelves/a") [] (codes "GET") routes)
find_target-Finds_example = find_target-Finds (codes "/v1/shelves/a") [] (codes "GET") routes

abbrev post_methods : Map ℕ
post_methods = (codes "POST", 2) ∷ []

match_delete : (match (codes "/v1/shelves/a:clear") (codes "DELETE") routes).1 ≡ some post_methods
unfolding match insert path_escape path_unescape is_variable
match_delete = refl

match-Serves_example :
    Serves (codes "/v1/shelves/a:clear") routes post_methods
    × Picks
        (codes "DELETE")
        post_methods
        (match (codes "/v1/shelves/a:clear") (codes "DELETE") routes)
match-Serves_example =
    match-Serves (codes "/v1/shelves/a:clear") (codes "DELETE") routes post_methods match_delete

canonical_v2 : canonical_segment (codes "v2") ≡ some (codes "v2")
unfolding canonical_segment path_escape path_unescape is_variable
canonical_v2 = refl

Covers-v2 : Covers (codes "v2" ∷ (codes "*" ∷ [])) (codes "v2" ∷ (codes "x" ∷ []))
Covers-v2 = literal canonical_v2 (star refl done)

match_v2 : match (codes "/v2/x") (codes "GET") routes ≡ (none, none)
unfolding match insert path_escape path_unescape is_variable
match_v2 = refl

Reads-v2 : Reads (codes "v2" ∷ (codes "*" ∷ [])) [] (codes "/v2/x")
Reads-v2 = inr (Covers-v2, refl)

match-absent_example : methods_at (codes "v2" ∷ (codes "*" ∷ [])) [] routes ≡ none
match-absent_example =
    match-absent (codes "/v2/x") (codes "GET") routes refl match_v2 (codes "v2" ∷ (codes "*" ∷ []))
      [] Reads-v2
