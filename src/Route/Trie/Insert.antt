-- ===== src/Route/Trie/Insert.antt =====
-- `insert` against the trie as a map from (segments, verb, method) to targets.
use vanguard_go.Prelude.{
  Bool, Bool-cases, Bytes, List, Option, Option-cases, [], arith, bytes_eq, bytes_eq_iff,
  bytes_eq→eq, drop, false, if◌then◌else◌, inl, inr, is_some, none, not, refl, some, split, true,
  ◌&&◌, ◌∙◌, ◌∷◌, ◌≡◌,
}
use vanguard_go.Prelude.Map.{Map, get, get-put, put}
use vanguard_go.Route.Trie.{
  Children, Trie, child, child_at, child_or_empty, children_of, empty_trie, insert, insert_at,
  insert_target, method_target, methods_or_empty, nil, node, put_child, verbs_of,
}
use vanguard_go.Route.Verb.{split_verb}

module _ {A : Type 0} where
  -- The methods that the trie holds for the segments of a template and a verb.
  unfoldable pub methods_at : List Bytes → Bytes → Trie A → Option (Map A)
  unfolding child_at
  methods_at [] verb t = get verb (verbs_of t)
  methods_at (segment ∷ segments) verb t = elim (child_at segment (children_of t)) [
    | none ↦ none
    | some c ↦ methods_at segments verb c
  ]

  -- The target that the trie holds for the segments of a template, a verb and a method.
  unfoldable pub route_at : List Bytes → Bytes → Bytes → Trie A → Option A
  route_at segments verb method t = method_target method (methods_at segments verb t)

abbrev pub same_segments : List Bytes → List Bytes → Bool
same_segments [] [] = true
same_segments [] (y ∷ ys) = false
same_segments (x ∷ xs) [] = false
same_segments (x ∷ xs) (y ∷ ys) = bytes_eq x y && same_segments xs ys

-- The key of one route is the key of another.
abbrev pub same_route : List Bytes → Bytes → Bytes → List Bytes → Bytes → Bytes → Bool
same_route segments verb method segments' verb' method' =
    same_segments segments segments' && (bytes_eq verb verb' && bytes_eq method method')

module _ {A : Type 0} where
  child_at-put_child :
      (s x : Bytes) (c : Trie A) (cs : Children A)
      → child_at x (put_child s c cs) ≡ (if bytes_eq s x then some c else child_at x cs)
  unfolding child_at put_child
  child_at-put_child s x c nil = refl
  child_at-put_child s x c (child k d cs) =
      ground
        (arith, bytes_eq_iff k s, bytes_eq_iff k x, bytes_eq_iff s x, child_at-put_child s x c cs)

  pub methods_at-empty : (ss : List Bytes) (v : Bytes) → methods_at ss v (empty_trie {A = A}) ≡ none
  unfolding methods_at
  methods_at-empty [] v = refl
  methods_at-empty (s ∷ ss) v = refl

  -- Below a child, made or not, stand the routes of the trie that go through it.
  route_at-child_or_empty :
      (s v m : Bytes) (ss : List Bytes) (t : Trie A)
      → route_at ss v m (child_or_empty s t) ≡ route_at (s ∷ ss) v m t
  unfolding route_at methods_at child_or_empty
  route_at-child_or_empty s v m ss t = elim (Option-cases (child_at s (children_of t))) [
    | inl e ↦ ground (arith, methods_at-empty ss v)
    | inr (c, e) ↦ ground arith
  ]

  -- The error of `insert` is the target that the trie holds for the same segments, verb and method.
  pub insert_at-existing :
      (ss : List Bytes) (v m : Bytes) (a : A) (t : Trie A)
      → (insert_at ss v m a t).1 ≡ route_at ss v m t
  unfolding insert_at insert_target
  insert_at-existing [] v m a t = unfold route_at methods_at in ground arith
  insert_at-existing (s ∷ ss) v m a t =
      insert_at-existing ss v m a (child_or_empty s t) ∙ route_at-child_or_empty s v m ss t

  -- What one `insert` at a node does to a route: `held` is what the trie held for the key.
  abbrev pub after_insert : Bool → Option A → A → Option A → Option A
  after_insert same held a old = if same && not (is_some held) then some a else old

  insert_target-get :
      (v m v' m' : Bytes) (a : A) (t : Trie A)
      → route_at [] v' m' (insert_target v m a t).0
        ≡ after_insert (bytes_eq v v' && bytes_eq m m') (route_at [] v m t) a (route_at [] v' m' t)
  unfolding insert_target route_at methods_at method_target methods_or_empty
  insert_target-get v m v' m' a (node cs vs) = elim (Option-cases (get v vs)) [
    | inl none_v ↦ ground (
      arith,
      get-put v v' (put m a []) vs,
      get-put m m' a [],
      bytes_eq_iff v v',
      bytes_eq_iff m m',
    )
    | inr (ms, some_v) ↦ ground (
      arith,
      get-put v v' (put m a ms) vs,
      get-put m m' a ms,
      bytes_eq_iff v v',
      bytes_eq_iff m m',
    )
  ]

  insert_target-children :
      (v m v' m' x : Bytes) (xs : List Bytes) (a : A) (t : Trie A)
      → route_at (x ∷ xs) v' m' (insert_target v m a t).0 ≡ route_at (x ∷ xs) v' m' t
  unfolding insert_target route_at methods_at
  insert_target-children v m v' m' x xs a (node cs vs) = ground arith

  -- A child that is put under a segment is found there, and no other.
  route_at-put_child :
      (s x v' m' : Bytes) (xs : List Bytes) (c t : Trie A)
      → route_at (x ∷ xs) v' m' (node (put_child s c (children_of t)) (verbs_of t))
        ≡ (if bytes_eq s x then route_at xs v' m' c else route_at (x ∷ xs) v' m' t)
  unfolding route_at methods_at
  route_at-put_child s x v' m' xs c t = ground (arith, child_at-put_child s x c (children_of t))

  -- The trie is a map from segments, verb and method to targets: `insert` adds its target if the
  -- trie holds none for the same key, and leaves every other route, and an existing one, as it was.
  pub insert_at-route_at :
      (ss ss' : List Bytes) (v m v' m' : Bytes) (a : A) (t : Trie A)
      → route_at ss' v' m' (insert_at ss v m a t).0
        ≡ after_insert (same_route ss v m ss' v' m') (route_at ss v m t) a (route_at ss' v' m' t)
  unfolding insert_at
  insert_at-route_at [] [] v m v' m' a t = insert_target-get v m v' m' a t
  insert_at-route_at [] (x ∷ xs) v m v' m' a t = insert_target-children v m v' m' x xs a t
  insert_at-route_at (s ∷ ss) [] v m v' m' a (node cs vs) = unfold route_at methods_at in refl
  insert_at-route_at (s ∷ ss) (x ∷ xs) v m v' m' a t =
      let c = child_or_empty s t in
      let below = insert_at-route_at ss xs v m v' m' a c in
      let here = route_at-put_child s x v' m' xs (insert_at ss v m a c).0 t in
      elim (Bool-cases (bytes_eq s x)) [
        | inl e ↦
            let same : s ≡ x = bytes_eq→eq s x e in
            let one = route_at-child_or_empty s v m ss t in
            let two : route_at xs v' m' c ≡ route_at (x ∷ xs) v' m' t =
              rw (← same) (route_at-child_or_empty s v' m' xs t) in
            here ∙ rw e (below ∙ rw (one, two))
        | inr e ↦ here ∙ rw e
      ]

  pub insert-insert_at :
      (m template : Bytes) (a : A) (t : Trie A)
      → insert m template a t
        ≡ insert_at (split (drop 1 (split_verb template).0) b'/') (split_verb template).1 m a t
  unfolding insert
  insert-insert_at m template a t = refl

same_segments→eq : (ss ss' : List Bytes) → same_segments ss ss' ≡ true → ss ≡ ss'
same_segments→eq [] [] h = refl
same_segments→eq [] (y ∷ ys) h = absurd (ground arith)
same_segments→eq (x ∷ xs) [] h = absurd (ground arith)
same_segments→eq (x ∷ xs) (y ∷ ys) h = ground (arith, bytes_eq_iff x y, same_segments→eq xs ys)

-- Equal keys have one route.
pub route_at-same_route :
    {A : Type 0} (ss ss' : List Bytes) (v m v' m' : Bytes) (t : Trie A)
    → same_route ss v m ss' v' m' ≡ true
    → route_at ss v m t ≡ route_at ss' v' m' t
route_at-same_route ss ss' v m v' m' t h =
    ground (arith, same_segments→eq ss ss', bytes_eq_iff v v', bytes_eq_iff m m')
