-- ===== src/Route/Trie.antt =====
-- router.go, `routeTrie`: its data, `insert`, `findTarget`, `getTarget` and `match`. `A` stands for
-- the targets. A node's children are the map from segments to nodes. Keys keep the order of their
-- insertion, which nothing reads. A trie is a value here: the callers of `insert` use the new one.
pub mod Insert
pub mod Covers
pub mod Find
pub mod Paths
pub mod Matching
mod Tests
use vanguard_go.Prelude.{
  Bool, Bytes, List, Option, [], bytes_eq, codes, cut_at, drop, ends_with, has_prefix,
  if◌then◌else◌, is_empty, is_some, length, none, not, some, split, suc, zero, ℕ, ◌&&◌, ◌||◌, ◌∷◌,
}
use vanguard_go.Prelude.Map.{Map, get, put}
use vanguard_go.Route.Verb.{split_verb}
use vanguard_go.Segment.{canonical_segment}

mutual
  pub data Trie (A : Type 0) : Type 0 where
    node : Children A → Map (Map A) → Trie A

  pub data Children (A : Type 0) : Type 0 where
    nil : Children A
    child : Bytes → Trie A → Children A → Children A

abbrev pub empty_trie : {A : Type 0} → Trie A
empty_trie = node nil []

-- A target, and the methods of its path and verb; none for nil.
abbrev pub Found : Type 0 → Type 0
Found A = Option A × Option (Map A)

abbrev pub children_of : {A : Type 0} → Trie A → Children A
children_of (node cs vs) = cs

abbrev pub verbs_of : {A : Type 0} → Trie A → Map (Map A)
verbs_of (node cs vs) = vs

-- `rest`, the path from the next '/' on, or ""
unfoldable pub rest_of : Option Bytes → Bytes
rest_of none = []
rest_of (some s) = s

module _ {A : Type 0} where
  -- t.children[segment]
  unfoldable pub child_at : Bytes → Children A → Option (Trie A)
  child_at segment nil = none
  child_at segment (child s t cs) = if bytes_eq s segment then some t else child_at segment cs

  -- t.children[segment] = child
  unfoldable pub put_child : Bytes → Trie A → Children A → Children A
  put_child segment t nil = child segment t nil
  put_child segment t (child s u cs) =
      if bytes_eq s segment then child s t cs else child s u (put_child segment t cs)

  -- `insertChild`: the child, made if it is not there
  unfoldable pub child_or_empty : Bytes → Trie A → Trie A
  unfolding child_at
  child_or_empty segment t = elim (child_at segment (children_of t)) [
    | some c ↦ c
    | none ↦ empty_trie
  ]

  -- methods[method], of a map that may be nil
  unfoldable pub method_target : Bytes → Option (Map A) → Option A
  method_target method none = none
  method_target method (some ms) = get method ms

  -- `insertVerb`: the methods of the verb, made if they are not there
  unfoldable pub methods_or_empty : Option (Map A) → Map A
  methods_or_empty none = []
  methods_or_empty (some ms) = ms

  -- The end of `insert`, at the node of the final segment: an existing target is the error.
  unfoldable pub insert_target : Bytes → Bytes → A → Trie A → Trie A × Option A
  unfolding method_target methods_or_empty
  insert_target verb method target t =
      let methods = get verb (verbs_of t) in
      elim (method_target method methods) [
        | some existing ↦ (t, some existing)
        | none ↦ (
          node (children_of t)
              (put verb (put method target (methods_or_empty methods)) (verbs_of t)),
          none,
        )
      ]

  -- The loop of `insert` over the segments.
  unfoldable pub insert_at : List Bytes → Bytes → Bytes → A → Trie A → Trie A × Option A
  unfolding insert_target child_or_empty put_child
  insert_at [] verb method target t = insert_target verb method target t
  insert_at (segment ∷ segments) verb method target t =
      let (c, existing) = insert_at segments verb method target (child_or_empty segment t) in
      (node (put_child segment c (children_of t)) (verbs_of t), existing)

  -- `insert`, with the target's template
  unfoldable pub insert : Bytes → Bytes → A → Trie A → Trie A × Option A
  unfolding insert_at split_verb
  insert method template target t =
      let (path, verb) = split_verb template in
      insert_at (split (drop 1 path) b'/') verb method target t

  unfoldable pub pick : Bytes → Map A → Found A
  pick method methods = elim (get method methods) [
    | some target ↦ (some target, some methods)
    | none ↦ elim (get (codes "*") methods) [
      | some target ↦ (some target, some methods)
      | none ↦ (none, some methods)
    ]
  ]

  unfoldable pub get_target : Bytes → Bytes → Trie A → Found A
  unfolding pick
  get_target verb method t = elim (get verb (verbs_of t)) [
    | none ↦ (none, none)
    | some methods ↦ pick method methods
  ]

  -- `if target != nil || methods != nil { return target, methods }`, or else what follows
  unfoldable pub or_else : Found A → Found A → Found A
  or_else (some target, methods) later = (some target, methods)
  or_else (none, some methods) later = (none, some methods)
  or_else (none, none) later = later

  unfoldable pub search_child : Option (Trie A) → (Trie A → Found A) → Found A
  search_child none find = (none, none)
  search_child (some c) find = find c

  unfoldable pub literal_child : Bytes → Children A → Option (Trie A)
  unfolding child_at canonical_segment
  literal_child segment cs = elim (canonical_segment segment) [
    | none ↦ none
    | some literal ↦ child_at literal cs
  ]

  -- The three tries of `findTarget` on a segment, where `find` searches the rest of the path.
  unfoldable pub find_segment : Bytes → Bytes → Bytes → (Trie A → Found A) → Trie A → Found A
  unfolding search_child literal_child child_at or_else get_target
  find_segment verb method current find t =
      let cs = children_of t in
      let literal = search_child (literal_child current cs) find in
      let star = search_child (child_at (codes "*") cs) find in
      let double_star = search_child (child_at (codes "**") cs) (get_target verb method) in
      or_else literal (or_else star double_star)

  -- `findTarget`; the path loses a byte in each call, so its length is enough fuel.
  unfoldable pub find_from : ℕ → Bytes → Bytes → Bytes → Trie A → Found A
  unfolding get_target find_segment rest_of
  find_from fuel [] verb method t = get_target verb method t
  find_from zero (c ∷ path) verb method t = (none, none)
  find_from (suc fuel) (c ∷ path) verb method t =
      let (current, back) = cut_at b'/' path in
      find_segment verb method current (find_from fuel (rest_of back) verb method) t

  unfoldable pub find_target : Bytes → Bytes → Bytes → Trie A → Found A
  unfolding find_from
  find_target path verb method t = find_from (length path) path verb method t

  -- The fallback of `match`: the colon may belong to the final segment's value.
  unfoldable pub choose_fallback : Found A → Found A → Found A
  choose_fallback (target, methods) (fallback, fallback_methods) =
      if is_some fallback || not (is_some methods)
      then (fallback, fallback_methods)
      else (target, methods)

  -- `match`, from its guard, whether the verb is blank, and the two searches
  unfoldable pub resolve : Bool → Bool → Found A → Found A → Found A
  unfolding choose_fallback
  resolve rejected no_verb found fallback =
      if rejected
      then (none, none)
      else if not (is_some found.0) && not no_verb
      then choose_fallback found fallback
      else found

  unfoldable pub match : Bytes → Bytes → Trie A → Found A
  unfolding find_target split_verb resolve
  match uri_path http_method t =
      let (path, verb) = split_verb uri_path in
      let found = find_target path verb http_method t in
      let fallback = find_target uri_path [] http_method t in
      resolve (not (has_prefix uri_path (codes "/")) || ends_with uri_path b':') (is_empty verb)
        found fallback
