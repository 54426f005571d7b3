-- ===== src/Template/Total.antt =====
-- The fuel of `parse_path_template` suffices: the parser always ends with a template or a syntax
-- error of the source.
use vanguard_go.Prelude.{err, false, length, ℕ, ◌<◌, ◌≡◌, ◌≢◌}
use vanguard_go.Template.{Parsed, PathParser, out_of_fuel}

-- No call on less than `n` bytes of input, with no "**" seen, runs out of fuel.
abbrev EndsBelow : (PathParser → Parsed PathParser) → ℕ → Type 0
EndsBelow segments n =
    (p : PathParser) → p.seen_double_star ≡ false → length p.rest < n → segments p ≢ err out_of_fuel
