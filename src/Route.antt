-- ===== src/Route.antt =====
-- router.go: the route trie. `Route.Verb` splits a verb from a path, `Route.Trie` is the trie
-- with `insert`, `findTarget` and `match`, and `Route.Capture` reads the variables of a match. The
-- proofs are in the modules below these and in the others here.
pub mod Verb
pub mod Trie
pub mod Capture
pub mod Templates
pub mod Served
pub mod Target
pub mod Captured
mod Tests
