-- ===== src/Route/Tests.antt =====
-- A template and a request that it serves.
use vanguard_go.Escape.{is_literal, is_variable, path_escape, path_unescape}
use vanguard_go.Route.Capture.{capture, slice_out_of_range, trim_verb}
use vanguard_go.Route.Captured.{trim_verb-capture}
use vanguard_go.Template.{PathVariable}
use vanguard_go.Template.Written.{written}
use vanguard_go.Prelude.{
  All, Bytes, List, err, ok, [], arith, codes, false, inl, inr, none, refl, some, ℕ, ◌∷◌, ◌≡◌, ◌≢◌,
}
use vanguard_go.Route.Served.{insert-match}
use vanguard_go.Route.Templates.{insert-template}
use vanguard_go.Route.Trie.{empty_trie, insert, insert_at, match}
use vanguard_go.Route.Trie.Covers.{Covers, done, literal, star}
use vanguard_go.Route.Trie.Matching.{Reads}
use vanguard_go.Segment.{canonical_segment}
use vanguard_go.Template.Canonical.{IsTemplate}
use vanguard_go.Template.Literal.{IsCanonicalLiteral}

literal_v1 : IsCanonicalLiteral (codes "v1")
literal_v1 = record {
  literal_bytes = unfold is_literal in (refl, (refl, tt));
  canonical = unfold canonical_segment path_escape path_unescape is_variable in refl;
}

abbrev star_template : IsTemplate (codes "/v1/*") []
star_template = record {
  segments = codes "v1" ∷ (codes "*" ∷ []);
  verb = none;
  double_star = false;
  text = refl;
  nonempty = omega arith;
  trail = inl (inr literal_v1, inl (inl refl, refl));
  verb_ok = tt;
  captures = tt;
}

inserted : (insert (codes "GET") (codes "/v1/*") 1 (empty_trie {A = ℕ})).1 ≡ none
unfolding insert
inserted = refl

canonical_v1 : canonical_segment (codes "v1") ≡ some (codes "v1")
unfolding canonical_segment path_escape path_unescape is_variable
canonical_v1 = refl

Covers-v1 : Covers (codes "v1" ∷ (codes "*" ∷ [])) (codes "v1" ∷ (codes "x" ∷ []))
Covers-v1 = literal canonical_v1 (star refl done)

Reads-v1 : Reads (codes "v1" ∷ (codes "*" ∷ [])) [] (codes "/v1/x")
Reads-v1 = inr (Covers-v1, refl)

insert-match_example :
    match
      (codes "/v1/x")
      (codes "PUT")
      (insert (codes "GET") (codes "/v1/*") 1 (empty_trie {A = ℕ})).0
    ≢ (none, none)
insert-match_example =
    insert-match star_template (codes "GET") 1 empty_trie inserted (codes "/v1/x") (codes "PUT")
      refl Reads-v1

insert-template_example :
    insert (codes "GET") (codes "/v1/*") 1 (empty_trie {A = ℕ})
    ≡ insert_at (codes "v1" ∷ (codes "*" ∷ [])) [] (codes "GET") 1 empty_trie
insert-template_example = insert-template star_template (codes "GET") 1 empty_trie

abbrev leaf : PathVariable
leaf = record { field_path = codes "leaf"; start = 1; end_segment = some 2 }

abbrev leaf_template : IsTemplate (codes "/v1/*") (leaf ∷ [])
leaf_template = record {
  segments = codes "v1" ∷ (codes "*" ∷ []);
  verb = none;
  double_star = false;
  text = refl;
  nonempty = omega arith;
  trail = inl (inr literal_v1, inl (inl refl, refl));
  verb_ok = tt;
  captures = (record { after = omega arith; before = omega arith; ends = omega arith }, tt);
}

trim_verb-capture_example :
    (us : List Bytes) × (trim_verb (codes "/v1/*") (codes "/v1/x") ≡ ok (written us))
    × Covers (codes "v1" ∷ (codes "*" ∷ [])) us
    × All (λ v. capture v (written us) ≢ err slice_out_of_range) (leaf ∷ [])
trim_verb-capture_example = trim_verb-capture leaf_template (codes "/v1/x") refl Reads-v1
