-- ===== src/Escape/Tests.antt =====
-- Runs of the encoding of path segments.
use vanguard_go.Escape.{
  escape_error, is_variable, multi, out_of_range, path_escape, path_unescape, single,
}
use vanguard_go.Escape.RoundTrip.{path_unescape_in_range}
use vanguard_go.Prelude.{Bytes, codes, err, ok, refl, ◌≡◌, ◌≢◌}

escape_space : path_escape (codes "a b/c") single ≡ codes "a%20b%2Fc"
unfolding path_escape is_variable
escape_space = refl

escape_multi : path_escape (codes "a%2fb c") multi ≡ codes "a%2Fb%20c"
unfolding path_escape is_variable
escape_multi = refl

unescape_multi : path_unescape (codes "a%2fb%20c") multi ≡ ok (codes "a%2Fb c")
unfolding path_unescape
unescape_multi = refl

unescape_single : path_unescape (codes "a%2fb%20c") single ≡ ok (codes "a/b c")
unfolding path_unescape
unescape_single = refl

unescape_bad : path_unescape (codes "a%2") single ≡ err (escape_error (codes "%2"))
unfolding path_unescape
unescape_bad = refl

abbrev odd_text : Bytes
odd_text = codes "a b/%2f*"

path_unescape_in_range_example : path_unescape (codes "ab%") multi ≢ err out_of_range
path_unescape_in_range_example = path_unescape_in_range (codes "ab%") multi
