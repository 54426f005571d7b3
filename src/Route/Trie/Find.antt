-- ===== src/Route/Trie/Find.antt =====
-- `findTarget` on a list of segments, and what it finds.
use vanguard_go.Prelude.{
  Bytes, List, Option-cases, [], arith, codes, inl, inr, none, refl, some, subst, sym, ◌∙◌, ◌∷◌,
  ◌≡◌, ◌⊎◌,
}
use vanguard_go.Prelude.Map.{Map, get}
use vanguard_go.Route.Trie.{
  Found, Trie, child_at, children_of, find_segment, get_target, literal_child, or_else, pick,
  search_child, verbs_of,
}
use vanguard_go.Route.Trie.Covers.{
  Covers, Precedes, done, double_star, equal_to, later, literal, literal_first, star, star_first,
}
use vanguard_go.Route.Trie.Insert.{methods_at}
use vanguard_go.Segment.{canonical_segment}

module _ {A : Type 0} where
  -- `findTarget`, by recursion on the segments of the path.
  unfoldable pub find_segments : List Bytes → Bytes → Bytes → Trie A → Found A
  find_segments [] verb method t = get_target verb method t
  find_segments (current ∷ rest) verb method t =
      find_segment verb method current (find_segments rest verb method) t

  -- What a search owes: if it returns methods, they are those of a template that covers the path
  -- and precedes all others that cover it, and the target is the choice among them; if it returns
  -- none, no template that covers the path has the verb.
  pub data Answers (us : List Bytes) (v m : Bytes) (t : Trie A) : Found A → Type 0 where
    found :
        {ms : Map A} (ts : List Bytes)
        → Covers ts us
        → methods_at ts v t ≡ some ms
        → ((ts' : List Bytes) → Covers ts' us → (methods_at ts' v t ≡ none) ⊎ Precedes us ts ts')
        → Answers us v m t (pick m ms)
    absent :
        ((ts : List Bytes) → Covers ts us → methods_at ts v t ≡ none)
        → Answers us v m t (none, none)

Covers-nil : {ts : List Bytes} → Covers ts [] → ts ≡ []
Covers-nil done = refl

module _ {A : Type 0} where
  methods_at-nil : (v : Bytes) (t : Trie A) → methods_at [] v t ≡ get v (verbs_of t)
  unfolding methods_at
  methods_at-nil v t = refl

  methods_at-child :
      (s v : Bytes) (ts : List Bytes) (t c : Trie A)
      → child_at s (children_of t) ≡ some c
      → methods_at (s ∷ ts) v t ≡ methods_at ts v c
  unfolding methods_at
  methods_at-child s v ts t c e = rw (e, methods_at)

  methods_at-no_child :
      (s v : Bytes) (ts : List Bytes) (t : Trie A)
      → child_at s (children_of t) ≡ none
      → methods_at (s ∷ ts) v t ≡ none
  unfolding methods_at
  methods_at-no_child s v ts t e = rw (e, methods_at)

  get_target-Answers : (v m : Bytes) (t : Trie A) → Answers [] v m t (get_target v m t)
  unfolding get_target
  get_target-Answers v m t = elim (Option-cases (get v (verbs_of t))) [
    | inl e ↦ rw (e, get_target) (absent (λ ts c. rw (Covers-nil c) (methods_at-nil v t ∙ e)))
    | inr (ms, e) ↦
        rw (e, get_target)
          (found [] done (methods_at-nil v t ∙ e)
            (λ ts c. inr (subst (λ x. Precedes [] [] x) (sym (Covers-nil c)) equal_to)))
  ]

  -- What the search below one child owes, for the templates that begin with its segment.
  data HeadAnswers (s : Bytes) (us : List Bytes) (v m : Bytes) (t : Trie A) : Found A → Type 0 where
    head_found :
        {ms : Map A} (ts : List Bytes)
        → Covers ts us
        → methods_at (s ∷ ts) v t ≡ some ms
        → ((ts' : List Bytes)
            → Covers ts' us
            → (methods_at (s ∷ ts') v t ≡ none) ⊎ Precedes us ts ts')
        → HeadAnswers s us v m t (pick m ms)
    head_absent :
        ((ts : List Bytes) → Covers ts us → methods_at (s ∷ ts) v t ≡ none)
        → HeadAnswers s us v m t (none, none)

  HeadAnswers-of_Answers :
      {s v m : Bytes} {us : List Bytes} {t c : Trie A} {r : Found A}
      → child_at s (children_of t) ≡ some c
      → Answers us v m c r
      → HeadAnswers s us v m t r
  HeadAnswers-of_Answers {s} {v} {t} {c} e (found ts cov at others) =
      head_found ts cov (methods_at-child s v ts t c e ∙ at)
        (λ ts' c'. rw (methods_at-child s v ts' t c e) (others ts' c'))
  HeadAnswers-of_Answers {s} {v} {t} {c} e (absent none_at) =
      head_absent (λ ts cov. methods_at-child s v ts t c e ∙ none_at ts cov)

  search_child-HeadAnswers :
      (s v m : Bytes) (us : List Bytes) (t : Trie A) (find : Trie A → Found A)
      → ((c : Trie A) → Answers us v m c (find c))
      → HeadAnswers s us v m t (search_child (child_at s (children_of t)) find)
  unfolding search_child
  search_child-HeadAnswers s v m us t find h = elim (Option-cases (child_at s (children_of t))) [
    | inl e ↦ rw e (head_absent (λ ts c. methods_at-no_child s v ts t e))
    | inr (c, e) ↦ rw e (HeadAnswers-of_Answers e (h c))
  ]

  -- The same, for the child of a literal of the path.
  data LiteralAnswers (u : Bytes) (us : List Bytes) (v m : Bytes) (t : Trie A)
      : Found A → Type 0 where
    no_literal : canonical_segment u ≡ none → LiteralAnswers u us v m t (none, none)
    a_literal :
        {r : Found A} (l : Bytes)
        → canonical_segment u ≡ some l
        → HeadAnswers l us v m t r
        → LiteralAnswers u us v m t r

  literal_child-LiteralAnswers :
      (u v m : Bytes) (us : List Bytes) (t : Trie A) (find : Trie A → Found A)
      → ((c : Trie A) → Answers us v m c (find c))
      → LiteralAnswers u us v m t (search_child (literal_child u (children_of t)) find)
  unfolding literal_child search_child
  literal_child-LiteralAnswers u v m us t find h = elim (Option-cases (canonical_segment u)) [
    | inl e ↦ rw (e, literal_child) (no_literal e)
    | inr (l, e) ↦
        rw (e, literal_child) (a_literal l e (search_child-HeadAnswers l v m us t find h))
  ]

  or_else-pick : (m : Bytes) (ms : Map A) (next : Found A) → or_else (pick m ms) next ≡ pick m ms
  unfolding or_else pick
  or_else-pick m ms next = ground arith

  -- Against a template that begins with a literal of the path, all other templates come after.
  module _ (l u v : Bytes) (us : List Bytes) (t : Trie A) (e : canonical_segment u ≡ some l) where
    literal_others :
        (ts : List Bytes)
        → ((ts' : List Bytes)
            → Covers ts' us
            → (methods_at (l ∷ ts') v t ≡ none) ⊎ Precedes us ts ts')
        → (xs : List Bytes) → Covers xs (u ∷ us)
        → (methods_at xs v t ≡ none) ⊎ Precedes (u ∷ us) (l ∷ ts) xs
    literal_others ts others xs (literal {l = k} {ts = ts'} d c) =
        let same_l : l ≡ k = cc (e, d) in
        elim (others ts' c) [
          | inl n ↦ inl (rw (← same_l) n)
          | inr p ↦ inr (rw (← same_l) (later p))
        ]
    literal_others ts others xs (star d c) = inr (literal_first e (inl d))
    literal_others ts others xs (double_star d) = inr (literal_first e (inr d))

  -- The templates that begin with a literal of the path have no methods.
  abbrev NoLiteral : Bytes → List Bytes → Bytes → Trie A → Type 0
  NoLiteral u us v t =
      (l : Bytes) (ts : List Bytes)
      → canonical_segment u ≡ some l
      → Covers ts us
      → methods_at (l ∷ ts) v t ≡ none

  module _ (u v : Bytes) (us : List Bytes) (t : Trie A) (no_lit : NoLiteral u us v t) where
    star_others :
        (ts : List Bytes)
        → ((ts' : List Bytes)
            → Covers ts' us
            → (methods_at (codes "*" ∷ ts') v t ≡ none) ⊎ Precedes us ts ts')
        → (xs : List Bytes) → Covers xs (u ∷ us)
        → (methods_at xs v t ≡ none) ⊎ Precedes (u ∷ us) (codes "*" ∷ ts) xs
    star_others ts others xs (literal {l = k} {ts = ts'} d c) = inl (no_lit k ts' d c)
    star_others ts others xs (star {ts = ts'} d c) = elim (others ts' c) [
      | inl n ↦ inl (rw d n)
      | inr p ↦ inr (rw d (later p))
    ]
    star_others ts others xs (double_star d) = inr (star_first refl d)

    -- Neither a literal nor "*" begins a template with methods: "**" is left.
    module _
        (no_star : (ts : List Bytes) → Covers ts us → methods_at (codes "*" ∷ ts) v t ≡ none) where
      double_star_others :
          (xs : List Bytes)
          → Covers xs (u ∷ us)
          → (methods_at xs v t ≡ none) ⊎ Precedes (u ∷ us) (codes "**" ∷ []) xs
      double_star_others xs (literal {l = k} {ts = ts'} d c) = inl (no_lit k ts' d c)
      double_star_others xs (star {ts = ts'} d c) = inl (rw d (no_star ts' c))
      double_star_others xs (double_star d) = inr (rw d equal_to)

      no_others :
          methods_at (codes "**" ∷ []) v t ≡ none
          → (xs : List Bytes) → Covers xs (u ∷ us)
          → methods_at xs v t ≡ none
      no_others n xs (literal {l = k} {ts = ts'} d c) = no_lit k ts' d c
      no_others n xs (star {ts = ts'} d c) = rw d (no_star ts' c)
      no_others n xs (double_star d) = rw d n

      double_star-Answers :
          (m : Bytes) (r : Found A) → HeadAnswers (codes "**") [] v m t r → Answers (u ∷ us) v m t r
      double_star-Answers m r (head_found ts c at others) =
          let only : ts ≡ [] = Covers-nil c in
          found (codes "**" ∷ []) (double_star refl) (rw only at at) double_star_others
      double_star-Answers m r (head_absent n) = absent (no_others (n [] done))

    star-Answers :
        (m : Bytes) (r d : Found A)
        → HeadAnswers (codes "*") us v m t r
        → HeadAnswers (codes "**") [] v m t d
        → Answers (u ∷ us) v m t (or_else r d)
    star-Answers m r d (head_found {ms} ts c at others) h =
        rw or_else-pick (found (codes "*" ∷ ts) (star refl c) at (star_others ts others))
    star-Answers m r d (head_absent n) h = unfold or_else in double_star-Answers n m d h

  NoLiteral-of_none :
      (u v : Bytes) (us : List Bytes) (t : Trie A) → canonical_segment u ≡ none → NoLiteral u us v t
  NoLiteral-of_none u v us t e l ts d c = cc

  NoLiteral-of_some :
      (u v l : Bytes) (us : List Bytes) (t : Trie A)
      → canonical_segment u ≡ some l
      → ((ts : List Bytes) → Covers ts us → methods_at (l ∷ ts) v t ≡ none)
      → NoLiteral u us v t
  NoLiteral-of_some u v l us t e n k ts d c =
      let same_l : l ≡ k = cc (e, d) in rw (← same_l) (n ts c)

  segment-Answers :
      (u v m : Bytes) (us : List Bytes) (t : Trie A) (r s d : Found A)
      → LiteralAnswers u us v m t r
      → HeadAnswers (codes "*") us v m t s
      → HeadAnswers (codes "**") [] v m t d
      → Answers (u ∷ us) v m t (or_else r (or_else s d))
  segment-Answers u v m us t r s d (no_literal e) hs hd =
      unfold or_else in star-Answers u v us t (NoLiteral-of_none u v us t e) m s d hs hd
  segment-Answers u v m us t r s d (a_literal l e (head_found ts c at others)) hs hd =
      rw or_else-pick (found (l ∷ ts) (literal e c) at (literal_others l u v us t e ts others))
  segment-Answers u v m us t r s d (a_literal l e (head_absent n)) hs hd =
      unfold or_else in star-Answers u v us t (NoLiteral-of_some u v l us t e n) m s d hs hd

  find_segment-Answers :
      (u v m : Bytes) (us : List Bytes) (t : Trie A) (find : Trie A → Found A)
      → ((c : Trie A) → Answers us v m c (find c))
      → Answers (u ∷ us) v m t (find_segment v m u find t)
  unfolding find_segment
  find_segment-Answers u v m us t find h =
      segment-Answers u v m us t _ _ _ (literal_child-LiteralAnswers u v m us t find h)
        (search_child-HeadAnswers (codes "*") v m us t find h)
        (search_child-HeadAnswers (codes "**") v m [] t (get_target v m) (get_target-Answers v m))

  -- A search in the trie returns the methods of the template that comes first among those that
  -- cover the path and have the verb, with the target of the method or else of "*"; it returns
  -- nothing exactly when no template that covers the path has the verb.
  pub find_segments-Answers :
      (us : List Bytes) (v m : Bytes) (t : Trie A) → Answers us v m t (find_segments us v m t)
  unfolding find_segments
  find_segments-Answers [] v m t = get_target-Answers v m t
  find_segments-Answers (u ∷ us) v m t =
      find_segment-Answers u v m us t (find_segments us v m) (find_segments-Answers us v m)
