-- ===== src/Methods/Keyed.antt =====
-- The registered methods with their primary targets, through the steps of `resolveMethods`.
use vanguard_go.Fields.Descriptors.{Reflection}
use vanguard_go.Methods.{
  HttpRule, Registered, Routes, attach, attach_embedded, attach_external, find_selected, first_rule,
  methods_by_procedure, procedure_from_selector, resolve_methods,
}
use vanguard_go.Methods.External.{find_selected_ok}
use vanguard_go.Methods.Selector.{procedure_from_selector_iff}
use vanguard_go.Prelude.{
  All, Bool-cases, Bytes, List, Option, Option-cases, Result-cases, [], ap, arith, bind-ok,
  bytes_eq, bytes_eq_iff, false, inl, inr, none, ok, refl, some, subst, subst₂, sym, true, ◌∙◌, ◌∷◌,
  ◌≡◌,
}
use vanguard_go.Prelude.Map.{Map, get, get-put, put}
use vanguard_go.Route.Target.{RouteTarget, RpcMethod}
use vanguard_go.Route.Trie.{empty_trie}
use vanguard_go.Methods.Chosen.{
  MadeOf, Primary, attach-MadeOf, choose_rule, choose_rule-cons, choose_rule-here, choose_rule-kept,
  choose_rule-nil, choose_rule-there,
}

module _ (r : Reflection) where
  -- A registered method stands under its procedure, with the target of the rule that `c` chooses.
  pub record Keyed (c : RpcMethod r → Option HttpRule) (p : Bytes) (entry : Registered r)
      : Type 0 where
    pub procedure : entry.method.procedure ≡ p
    pub primary : Primary r entry.method (c entry.method) entry.http_rule

  abbrev pub AllKeyed : (RpcMethod r → Option HttpRule) → Map (Registered r) → Type 0
  AllKeyed c methods =
      (p : Bytes) (entry : Registered r) → get p methods ≡ some entry → Keyed c p entry

  Keyed-same :
      (c d : RpcMethod r → Option HttpRule) {p : Bytes} {entry : Registered r}
      → c entry.method ≡ d entry.method
      → Keyed c p entry
      → Keyed d p entry
  Keyed-same c d {p} {entry} e k = record {
    procedure = k.procedure;
    primary = subst (λ x. Primary r entry.method x entry.http_rule) e k.primary;
  }

  first_rule-unset :
      (entry : Registered r) (target : RouteTarget r)
      → entry.http_rule ≡ none
      → first_rule r entry target ≡ record entry { http_rule = some target }
  first_rule-unset entry target h = ground arith

  first_rule-set :
      (entry : Registered r) (target found : RouteTarget r)
      → entry.http_rule ≡ some found
      → first_rule r entry target ≡ entry
  first_rule-set entry target found h = ground arith

  first_rule-Keyed :
      (c : RpcMethod r → Option HttpRule) (rule : HttpRule) (p : Bytes) (entry : Registered r)
      (target : RouteTarget r)
      → procedure_from_selector rule.selector ≡ some p
      → MadeOf r entry.method rule target
      → Keyed c p entry
      → Keyed (choose_rule r c (rule ∷ [])) p (first_rule r entry target)
  first_rule-Keyed c rule p entry target e made k = elim (Option-cases (c entry.method)) [
    | inl h ↦
        let unset = subst (λ x. Primary r entry.method x entry.http_rule) h k.primary in
        let here =
          choose_rule-here r c rule entry.method h (e ∙ ap (λ x. some x) (sym k.procedure)) in
        subst (λ x. Keyed (choose_rule r c (rule ∷ [])) p x)
          (sym (first_rule-unset entry target unset))
          (record {
            procedure = k.procedure;
            primary =
                subst (λ x. Primary r entry.method x (some target)) (sym here) (target, refl, made);
          })
    | inr (x, h) ↦
        let (found, set, _) = subst (λ x. Primary r entry.method x entry.http_rule) h k.primary in
        let kept = choose_rule-kept r c (rule ∷ []) entry.method x h in
        subst (λ x. Keyed (choose_rule r c (rule ∷ [])) p x)
          (sym (first_rule-set entry target found set))
          (Keyed-same c (choose_rule r c (rule ∷ [])) (h ∙ sym kept) k)
  ]

  put-AllKeyed :
      (c : RpcMethod r → Option HttpRule) (rule : HttpRule) (p : Bytes) (entry : Registered r)
      (target : RouteTarget r) (methods : Map (Registered r))
      → procedure_from_selector rule.selector ≡ some p
      → MadeOf r entry.method rule target
      → get p methods ≡ some entry
      → AllKeyed c methods
      → AllKeyed (choose_rule r c (rule ∷ [])) (put p (first_rule r entry target) methods)
  put-AllKeyed c rule p entry target methods e made found h q entry' found' =
      let at = sym (get-put p q (first_rule r entry target) methods) ∙ found' in
      elim (Bool-cases (bytes_eq p q)) [
        | inl same ↦
            let d : p ≡ q = (bytes_eq_iff p q).0 same in
            let x : first_rule r entry target ≡ entry' = ground arith in
            subst (λ x. Keyed (choose_rule r c (rule ∷ [])) q x) x
              (subst (λ q. Keyed (choose_rule r c (rule ∷ [])) q (first_rule r entry target)) d
                (first_rule-Keyed c rule p entry target e made (h p entry found)))
        | inr other ↦
            let k = h q entry' (ground arith) in
            Keyed-same c (choose_rule r c (rule ∷ []))
              (sym (
                choose_rule-there r c rule entry'.method p e (ap (bytes_eq p) k.procedure ∙ other)))
              k
      ]

  attach_external-AllKeyed :
      (c : RpcMethod r → Option HttpRule) (rules : List HttpRule)
      (methods methods' : Map (Registered r)) (t t' : Routes r)
      → attach_external r rules methods t ≡ ok (methods', t')
      → AllKeyed c methods
      → AllKeyed (choose_rule r c rules) methods'
  unfolding attach_external
  attach_external-AllKeyed c [] methods methods' t t' h k p entry found =
      let e : methods ≡ methods' = ground arith in
      Keyed-same c (choose_rule r c []) (sym (choose_rule-nil r c entry.method))
        (k p entry (subst (λ m. get p m ≡ some entry) (sym e) found))
  attach_external-AllKeyed c (rule ∷ rules) methods methods' t t' h k p entry found =
      let ((procedure, x), selected, h') = bind-ok (find_selected r rule.selector methods) _ h in
      let ((u, target), attached, h'') =
        bind-ok (attach r true rule.selector x.method rule t) _ h' in
      let (names, at) = find_selected_ok r rule.selector procedure methods x selected in
      let e = (procedure_from_selector_iff rule.selector procedure).1 names in
      let made = attach-MadeOf r true rule.selector x.method rule t u target attached in
      Keyed-same (choose_rule r (choose_rule r c (rule ∷ [])) rules)
        (choose_rule r c (rule ∷ rules)) (choose_rule-cons r c rule rules entry.method)
        (attach_external-AllKeyed (choose_rule r c (rule ∷ [])) rules
          (put procedure (first_rule r x target) methods) methods' u t' h''
          (put-AllKeyed c rule procedure x target methods e made at k) p entry found)

  abbrev EachKeyed : (RpcMethod r → Option HttpRule) → Map (Registered r) → Type 0
  EachKeyed c methods = All (λ e. Keyed c e.0 e.1) methods

  get-EachKeyed :
      (c : RpcMethod r → Option HttpRule) (methods : Map (Registered r))
      → EachKeyed c methods
      → AllKeyed c methods
  get-EachKeyed c [] h p entry found = absurd (ground arith)
  get-EachKeyed c ((q, x) ∷ methods) (h, hs) p entry found = elim (Bool-cases (bytes_eq q p)) [
    | inl same ↦
        let d : q ≡ p = (bytes_eq_iff q p).0 same in
        let e : x ≡ entry = ground arith in subst₂ (λ q x. Keyed c q x) d e h
    | inr other ↦ get-EachKeyed c methods hs p entry (ground arith)
  ]

  put-EachKeyed :
      (c : RpcMethod r → Option HttpRule) (p : Bytes) (entry : Registered r)
      (methods : Map (Registered r))
      → Keyed c p entry
      → EachKeyed c methods
      → EachKeyed c (put p entry methods)
  put-EachKeyed c p entry [] k h = (k, tt)
  put-EachKeyed c p entry ((q, x) ∷ methods) k (h, hs) = elim (Bool-cases (bytes_eq q p)) [
    | inl same ↦ rw (same, put) (k, hs)
    | inr other ↦ rw (other, put) (h, put-EachKeyed c p entry methods k hs)
  ]

  abbrev no_rule : RpcMethod r → Option HttpRule
  no_rule method = none

  methods_by_procedure-EachKeyed :
      (specs : List (Option (RpcMethod r))) (methods : Map (Registered r))
      → EachKeyed no_rule methods
      → EachKeyed no_rule (methods_by_procedure r specs methods)
  unfolding methods_by_procedure
  methods_by_procedure-EachKeyed [] methods h = h
  methods_by_procedure-EachKeyed (none ∷ specs) methods h =
      methods_by_procedure-EachKeyed specs methods h
  methods_by_procedure-EachKeyed (some method ∷ specs) methods h =
      methods_by_procedure-EachKeyed specs _ (
        put-EachKeyed no_rule method.procedure _ methods
          (record { procedure = refl; primary = refl }) h)

  attach_embedded-EachKeyed :
      (extension : RpcMethod r → Option HttpRule) (entries entries' : Map (Registered r))
      (t t' : Routes r)
      → attach_embedded r extension entries t ≡ ok (entries', t')
      → EachKeyed no_rule entries
      → EachKeyed extension entries'
  unfolding attach_embedded
  attach_embedded-EachKeyed extension [] entries' t t' h k =
      let e : [] ≡ entries' = ground arith in subst (EachKeyed extension) e tt
  attach_embedded-EachKeyed extension ((p, entry) ∷ entries) entries' t t' h (k, ks) =
      elim (Option-cases (extension entry.method)) [
        | inl e ↦ elim (Result-cases (attach_embedded r extension entries t)) [
          | inr (x, l) ↦ absurd (ground arith)
          | inl ((rest, u), l) ↦
              let d : (p, entry) ∷ rest ≡ entries' = ground arith in
              subst (EachKeyed extension) d (
                Keyed-same no_rule extension (sym e) k,
                attach_embedded-EachKeyed extension entries rest t u l ks,
              )
        ]
        | inr (rule, e) ↦ elim (Result-cases (attach r false p entry.method rule t)) [
          | inr (x, l) ↦ absurd (ground arith)
          | inl ((u, target), l) ↦ elim (Result-cases (attach_embedded r extension entries u)) [
            | inr (x, l') ↦ absurd (ground arith)
            | inl ((rest, v), l') ↦
                let d : (p, record entry { http_rule = some target }) ∷ rest ≡ entries' =
                  ground arith in
                let made = attach-MadeOf r false p entry.method rule t u target l in
                subst (EachKeyed extension) d (
                  record {
                    procedure = k.procedure;
                    primary =
                        subst (λ x. Primary r entry.method x (some target)) (sym e)
                          (target, refl, made);
                  },
                  attach_embedded-EachKeyed extension entries rest u v l' ks,
                )
          ]
        ]
      ]

  -- A method that `resolveMethods` registers stands under its procedure. Its primary target is
  -- made from the primary binding of the rule that it embeds, or else of the first rule of the
  -- options whose selector names the procedure; it has none when there is no such rule.
  pub resolve_methods-Keyed :
      (extension : RpcMethod r → Option HttpRule) (specs : List (Option (RpcMethod r)))
      (rules : List HttpRule) (methods : Map (Registered r)) (t : Routes r)
      → resolve_methods r extension specs rules ≡ ok (methods, t)
      → (procedure : Bytes) (entry : Registered r) → get procedure methods ≡ some entry
      → Keyed (choose_rule r extension rules) procedure entry
  unfolding resolve_methods
  resolve_methods-Keyed extension specs rules methods t h =
      let registered = methods_by_procedure r specs [] in
      let ((methods', t'), done, h') =
        bind-ok (attach_embedded r extension registered empty_trie) _ h in
      let each =
        attach_embedded-EachKeyed extension registered methods' empty_trie t' done
          (methods_by_procedure-EachKeyed specs [] tt) in
      attach_external-AllKeyed extension rules methods' methods t' t h'
        (get-EachKeyed extension methods' each)
