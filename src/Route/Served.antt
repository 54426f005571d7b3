-- ===== src/Route/Served.antt =====
-- From a canonical template to the requests that it serves: `insert` and `match` together.
use vanguard_go.Prelude.{
  Bytes, List, [], arith, bytes_eq_self, false, none, refl, some, sym, true, ◌∙◌, ◌∷◌, ◌≡◌, ◌≢◌,
}
use vanguard_go.Route.Templates.{insert-template, verb_text}
use vanguard_go.Route.Trie.{Trie, insert, insert_at, match, method_target}
use vanguard_go.Route.Trie.Insert.{
  insert_at-existing, insert_at-route_at, methods_at, route_at, same_route, same_segments,
}
use vanguard_go.Route.Trie.Matching.{Reads, is_rejected, match-absent}
use vanguard_go.Template.{PathVariable}
use vanguard_go.Template.Canonical.{IsTemplate}

same_segments_self : (ss : List Bytes) → same_segments ss ss ≡ true
same_segments_self [] = refl
same_segments_self (s ∷ ss) = rw (bytes_eq_self s) (same_segments_self ss)

pub same_route_self : (ss : List Bytes) (v m : Bytes) → same_route ss v m ss v m ≡ true
same_route_self ss v m = rw (same_segments_self ss, bytes_eq_self v, bytes_eq_self m)

module _ {A : Type 0} where
  pub insert_at_self :
      (ss : List Bytes) (v m : Bytes) (a : A) (t : Trie A)
      → (insert_at ss v m a t).1 ≡ none
      → route_at ss v m (insert_at ss v m a t).0 ≡ some a
  insert_at_self ss v m a t fresh =
      let held : route_at ss v m t ≡ none = sym (insert_at-existing ss v m a t) ∙ fresh in
      insert_at-route_at ss ss v m v m a t ∙ rw (same_route_self, held)

  methods_of_route :
      (ss : List Bytes) (v m : Bytes) (a : A) (t : Trie A)
      → route_at ss v m t ≡ some a
      → methods_at ss v t ≢ none
  unfolding route_at method_target
  methods_of_route ss v m a t h e = ground arith

  -- A canonical template, as the parser returns it, that `insert` takes without an error is
  -- served: a request path that is not rejected and that the template and its verb read always
  -- finds a target or methods, whatever the request's method.
  pub insert-match :
      {template : Bytes} {vars : List PathVariable} (h : IsTemplate template vars) (m : Bytes)
      (a : A) (t : Trie A)
      → (insert m template a t).1 ≡ none
      → (uri_path request_method : Bytes) → is_rejected uri_path ≡ false
      → Reads h.segments (verb_text h.verb) uri_path
      → match uri_path request_method (insert m template a t).0 ≢ (none, none)
  insert-match h m a t fresh uri_path q accepted reads e =
      let at = insert-template h m a t in
      let fresh' : (insert_at h.segments (verb_text h.verb) m a t).1 ≡ none = rw at at fresh in
      let e' = rw at at e in
      methods_of_route h.segments (verb_text h.verb) m a _
        (insert_at_self h.segments (verb_text h.verb) m a t fresh')
        (match-absent uri_path q _ accepted e' h.segments (verb_text h.verb) reads)
