-- ===== src/Route/Trie/Matching.antt =====
-- What `match` finds, and what it misses.
use vanguard_go.Prelude.{
  Bool, Bytes, List, [], arith, codes, ends_with, false, has_prefix, inl, inr, is_empty, none, not,
  Option-cases, refl, some, subst, sym, true, ◌||◌, ◌∷◌, ◌≡◌, ◌⊎◌,
}
use vanguard_go.Prelude.Map.{Map, get}
use vanguard_go.Route.Trie.{Found, Trie, find_target, match, pick, resolve}
use vanguard_go.Route.Trie.Covers.{Covers, Precedes}
use vanguard_go.Route.Trie.Find.{Answers, absent, find_segments-Answers, found}
use vanguard_go.Route.Trie.Insert.{methods_at}
use vanguard_go.Route.Trie.Paths.{find_target-find_segments, segments_of}
use vanguard_go.Route.Verb.{split_verb}
use vanguard_go.Route.Verb.Laws.{split_verb_whole}

-- The guard of `match`: a path that does not start with '/', or that ends with ':'.
abbrev pub is_rejected : Bytes → Bool
is_rejected uri_path = not (has_prefix uri_path (codes "/")) || ends_with uri_path b':'

ends_of_accepted : (s : Bytes) → is_rejected s ≡ false → ends_with s b':' ≡ false
ends_of_accepted s h = ground arith

eq_nil : (s : Bytes) → is_empty s ≡ true → s ≡ []
eq_nil [] h = refl
eq_nil (c ∷ s) h = absurd (ground arith)

-- The two readings of a request path: with the verb behind its last colon, or with that colon in
-- the value of the final segment and no verb.
abbrev pub Reads : List Bytes → Bytes → Bytes → Type 0
Reads ts v uri_path =
    (Covers ts (segments_of (split_verb uri_path).0) × (v ≡ (split_verb uri_path).1))
    ⊎ (Covers ts (segments_of uri_path) × (v ≡ []))

-- The template `ts` and the verb `v` read the path, and the trie has the methods `ms` for them.
pub record Serves {A : Type 0} (uri_path : Bytes) (t : Trie A) (ms : Map A) : Type 0 where
  pub segments : List Bytes
  pub verb : Bytes
  pub reads : Reads segments verb uri_path
  pub methods : methods_at segments verb t ≡ some ms

-- The target of the request's method, or else that of "*", or none, with the methods.
pub data Picks {A : Type 0} (m : Bytes) (ms : Map A) : Found A → Type 0 where
  by_method : (a : A) → get m ms ≡ some a → Picks m ms (some a, some ms)
  by_star : (a : A) → get m ms ≡ none → get (codes "*") ms ≡ some a → Picks m ms (some a, some ms)
  not_allowed : get m ms ≡ none → get (codes "*") ms ≡ none → Picks m ms (none, some ms)

pick-Picks : {A : Type 0} (m : Bytes) (ms : Map A) → Picks m ms (pick m ms)
unfolding pick
pick-Picks m ms = elim (Option-cases (get m ms)) [
  | inr (a, e) ↦ rw (pick, e) (by_method a e)
  | inl e ↦ elim (Option-cases (get (codes "*") ms)) [
    | inr (a, k) ↦ rw (pick, e, k) (by_star a e k)
    | inl k ↦ rw (pick, e, k) (not_allowed e k)
  ]
]

-- What a search of the trie by the segments of a path owes: if it returns methods, they are those of a
-- template that covers the path and precedes all others that cover it and have the verb, with the
-- target picked from them; if it returns none, no template that covers the path has the verb.
pub data Finds {A : Type 0} (us : List Bytes) (v m : Bytes) (t : Trie A) (r : Found A)
    : Type 0 where
  finds :
      (ms : Map A) (ts : List Bytes)
      → Covers ts us
      → methods_at ts v t ≡ some ms
      → ((ts' : List Bytes) → Covers ts' us → (methods_at ts' v t ≡ none) ⊎ Precedes us ts ts')
      → Picks m ms r
      → Finds us v m t r
  misses :
      r ≡ (none, none)
      → ((ts : List Bytes) → Covers ts us → methods_at ts v t ≡ none)
      → Finds us v m t r

Finds-of_Answers :
    {A : Type 0} {us : List Bytes} {v m : Bytes} {t : Trie A} {r : Found A}
    → Answers us v m t r
    → Finds us v m t r
Finds-of_Answers {m} (found {ms} ts c at others) = finds ms ts c at others (pick-Picks m ms)
Finds-of_Answers (absent n) = misses refl n

module _ {A : Type 0} where
  Serves-of_Answers :
      (v m uri_path : Bytes) (us : List Bytes) (t : Trie A) (ms : Map A) {r : Found A}
      → ((ts : List Bytes) → Covers ts us → Reads ts v uri_path)
      → Answers us v m t r
      → r.1 ≡ some ms
      → Serves uri_path t ms × (r ≡ pick m ms)
  Serves-of_Answers v m uri_path us t ms reads (found {ms = ns} ts c at others) e =
      let same_ms : ns ≡ ms = unfold pick in ground arith in
      rw (← same_ms) (record { segments = ts; verb = v; reads = reads ts c; methods = at }, refl)
  Serves-of_Answers v m uri_path us t ms reads (absent n) e = absurd (ground arith)

  absent_of_Answers :
      (v m : Bytes) (us : List Bytes) (t : Trie A) {r : Found A}
      → Answers us v m t r
      → r.1 ≡ none
      → (ts : List Bytes) → Covers ts us
      → methods_at ts v t ≡ none
  absent_of_Answers v m us t (found {ms = ns} ts c at others) e =
      absurd (unfold pick in ground arith)
  absent_of_Answers v m us t (absent n) e = n

  find_target-Answers :
      (path v m : Bytes) (t : Trie A) → Answers (segments_of path) v m t (find_target path v m t)
  find_target-Answers path v m t =
      rw find_target-find_segments (find_segments-Answers (segments_of path) v m t)

  -- `findTarget` returns the methods of the template that comes first among those that cover the
  -- segments of the path and have the verb, with the target of the method or else of "*"; it
  -- returns nothing exactly when no template that covers the path has the verb.
  pub find_target-Finds :
      (path v m : Bytes) (t : Trie A) → Finds (segments_of path) v m t (find_target path v m t)
  find_target-Finds path v m t = Finds-of_Answers (find_target-Answers path v m t)

  resolve_methods :
      (rejected no_verb : Bool) (f g : Found A) (ms : Map A)
      → (resolve rejected no_verb f g).1 ≡ some ms
      → ((f.1 ≡ some ms) × (resolve rejected no_verb f g ≡ f))
        ⊎ ((g.1 ≡ some ms) × (resolve rejected no_verb f g ≡ g))
  unfolding resolve
  resolve_methods true no_verb f g ms h = absurd (ground arith)
  resolve_methods false true (none, x) g ms h = inl (ground arith)
  resolve_methods false false (none, none) g ms h = inr (ground arith)
  resolve_methods false false (none, some x) (none, y) ms h = inl (ground arith)
  resolve_methods false false (none, some x) (some b, y) ms h = inr (ground arith)
  resolve_methods false no_verb (some a, x) g ms h = inl (ground arith)

  resolve-none :
      (no_verb : Bool) (f g : Found A)
      → resolve false no_verb f g ≡ (none, none)
      → (f.1 ≡ none) × ((no_verb ≡ true) ⊎ (g.1 ≡ none))
  unfolding resolve
  resolve-none true (none, x) g h = ground arith
  resolve-none false (none, none) g h = ground arith
  resolve-none false (none, some x) (none, y) h = absurd (ground arith)
  resolve-none false (none, some x) (some b, y) h = absurd (ground arith)
  resolve-none no_verb (some a, x) g h = absurd (ground arith)

  match-resolve :
      (uri_path m : Bytes) (t : Trie A)
      → match uri_path m t
        ≡ resolve
            (is_rejected uri_path)
            (is_empty (split_verb uri_path).1)
            (find_target (split_verb uri_path).0 (split_verb uri_path).1 m t)
            (find_target uri_path [] m t)
  unfolding match
  match-resolve uri_path m t = refl

  match-pick :
      (uri_path m : Bytes) (t : Trie A) (ms : Map A)
      → (match uri_path m t).1 ≡ some ms
      → Serves uri_path t ms × (match uri_path m t ≡ pick m ms)
  match-pick uri_path m t ms h =
      let (path, verb) = split_verb uri_path in
      let found = find_target path verb m t in
      let fallback = find_target uri_path [] m t in
      let h' : (resolve (is_rejected uri_path) (is_empty verb) found fallback).1 ≡ some ms =
        rw match-resolve at h in
      rw match-resolve
        (elim (resolve_methods (is_rejected uri_path) (is_empty verb) found fallback ms h') [
          | inl (e, r) ↦ rw r (
              Serves-of_Answers verb m uri_path (segments_of path) t ms (λ ts c. inl (c, refl))
                (find_target-Answers path verb m t) e)
          | inr (e, r) ↦ rw r (
              Serves-of_Answers [] m uri_path (segments_of uri_path) t ms (λ ts c. inr (c, refl))
                (find_target-Answers uri_path [] m t) e)
        ])

  -- The methods that `match` returns, with a target or none, are those of a template and a verb
  -- that read the path; the target is the one of the request's method, or else of "*", or none.
  pub match-Serves :
      (uri_path m : Bytes) (t : Trie A) (ms : Map A)
      → (match uri_path m t).1 ≡ some ms
      → Serves uri_path t ms × Picks m ms (match uri_path m t)
  match-Serves uri_path m t ms h =
      let (serves, same) = match-pick uri_path m t ms h in
      (serves, subst (Picks m ms) (sym same) (pick-Picks m ms))

  -- For a path that `match` does not reject, it finds nothing only if no template of the trie
  -- reads the path, with or without a verb.
  pub match-absent :
      (uri_path m : Bytes) (t : Trie A)
      → is_rejected uri_path ≡ false
      → match uri_path m t ≡ (none, none)
      → (ts : List Bytes) (v : Bytes) → Reads ts v uri_path
      → methods_at ts v t ≡ none
  match-absent uri_path m t ok_path h ts v r =
      let (path, verb) = split_verb uri_path in
      let found = find_target path verb m t in
      let fallback = find_target uri_path [] m t in
      let h' : resolve false (is_empty verb) found fallback ≡ (none, none) =
        rw (match-resolve, ok_path) at h in
      let (none_f, or_g) = resolve-none (is_empty verb) found fallback h' in
      let first =
        absent_of_Answers verb m (segments_of path) t (find_target-Answers path verb m t) none_f in
      elim r [
        | inl (c, e) ↦ rw e (first ts c)
        | inr (c, e) ↦ rw e (elim or_g [
          | inl no_v ↦
              let whole = split_verb_whole uri_path no_v (ends_of_accepted uri_path ok_path) in
              let blank = eq_nil verb no_v in rw (← blank) (first ts (rw whole c))
          | inr g ↦
              absent_of_Answers [] m (segments_of uri_path) t (find_target-Answers uri_path [] m t)
                g ts c
        ])
      ]
