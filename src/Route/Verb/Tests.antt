-- ===== src/Route/Verb/Tests.antt =====
-- Splitting a verb from a path.
use vanguard_go.Prelude.{codes, refl, ◌≡◌}
use vanguard_go.Route.Verb.{split_verb}

split_read : split_verb (codes "/v1/a:b:read") ≡ (codes "/v1/a:b", codes "read")
unfolding split_verb
split_read = refl
