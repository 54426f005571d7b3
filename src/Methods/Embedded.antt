-- ===== src/Methods/Embedded.antt =====
-- The routes that the rules embedded in the methods leave in the trie.
use vanguard_go.Fields.Descriptors.{Reflection}
use vanguard_go.Methods.{HttpRule, Registered, Routes, attach, attach_embedded, first_rule}
use vanguard_go.Methods.Bindings.{
  Grows, Grows-refl, Grows-trans, RuleHeld, RuleHeld-Grows, attach-RuleHeld,
}
use vanguard_go.Prelude.{
  All, Bool-cases, Bytes, Option, Option-cases, Result-cases, [], ap, arith, bytes_eq, bytes_eq_iff,
  false, inl, inr, none, ok, refl, some, sym, ◌∙◌, ◌∷◌, ◌≡◌,
}
use vanguard_go.Prelude.Map.{Map, get, get-put, put}
use vanguard_go.Route.Target.{RouteTarget, RpcMethod}

same_rule : {A : Type 0} {a b : A} → some a ≡ some b → a ≡ b
same_rule h = cc

module _ (r : Reflection) where
  -- The method registered for a procedure.
  abbrev pub method_of : Bytes → Map (Registered r) → Option (RpcMethod r)
  method_of procedure methods = elim (get procedure methods) [
    | none ↦ none
    | some entry ↦ some entry.method
  ]

  -- Two maps have the same methods.
  abbrev pub SameMethods : Map (Registered r) → Map (Registered r) → Type 0
  SameMethods methods methods' =
      (procedure : Bytes) → method_of procedure methods ≡ method_of procedure methods'

  method_of-cons :
      (procedure p : Bytes) (entry entry' : Registered r) (methods methods' : Map (Registered r))
      → entry.method ≡ entry'.method
      → method_of procedure methods ≡ method_of procedure methods'
      → method_of procedure ((p, entry) ∷ methods) ≡ method_of procedure ((p, entry') ∷ methods')
  method_of-cons procedure p entry entry' methods methods' e h =
      elim (Bool-cases (bytes_eq p procedure)) [
        | inl same ↦ rw (same, method_of, get) (ap (λ m. some m) e)
        | inr other ↦ rw (other, method_of, get) h
      ]

  pub method_of-put :
      (procedure p : Bytes) (entry entry' : Registered r) (methods : Map (Registered r))
      → get p methods ≡ some entry
      → entry.method ≡ entry'.method
      → method_of procedure methods ≡ method_of procedure (put p entry' methods)
  method_of-put procedure p entry entry' methods found e =
      elim (Bool-cases (bytes_eq p procedure)) [
        | inl same ↦
            let d : p ≡ procedure = (bytes_eq_iff p procedure).0 same in
            let found' : get procedure methods ≡ some entry = rw d at found in
            let g : get procedure (put p entry' methods) ≡ some entry' =
              get-put p procedure entry' methods ∙ rw same in
            ground (arith, found', g, e)
        | inr other ↦
            let g : get procedure (put p entry' methods) ≡ get procedure methods =
              get-put p procedure entry' methods ∙ rw other in
            ground (arith, g)
      ]

  pub first_rule-method :
      (entry : Registered r) (target : RouteTarget r)
      → entry.method ≡ (first_rule r entry target).method
  first_rule-method entry target = ground arith

  RuleHeld-same :
      (rule rule' : HttpRule) (method : RpcMethod r) {t : Routes r}
      → rule ≡ rule'
      → RuleHeld r false method rule t
      → RuleHeld r false method rule' t
  RuleHeld-same rule rule' method e h = rw (← e) h

  module _ (extension : RpcMethod r → Option HttpRule) where
    -- The routes hold all bindings of the rule that an entry's method embeds, if it embeds one.
    abbrev pub EmbeddedHeld : Routes r → Bytes × Registered r → Type 0
    EmbeddedHeld t (p, entry) =
        (rule : HttpRule)
        → extension entry.method ≡ some rule
        → RuleHeld r false entry.method rule t

    pub EmbeddedHeld-Grows :
        (entries : Map (Registered r)) {t t' : Routes r}
        → Grows r t t'
        → All (EmbeddedHeld t) entries
        → All (EmbeddedHeld t') entries
    EmbeddedHeld-Grows [] g h = tt
    EmbeddedHeld-Grows ((p, entry) ∷ entries) g (h, hs) = (
      (λ rule e. RuleHeld-Grows r false entry.method rule g (h rule e)),
      EmbeddedHeld-Grows entries g hs,
    )

    pub record AfterEmbedded (entries entries' : Map (Registered r)) (t t' : Routes r)
        : Type 0 where
      pub held : All (EmbeddedHeld t') entries
      pub grows : Grows r t t'
      pub same : SameMethods entries entries'

    pub attach_embedded-Held :
        (entries entries' : Map (Registered r)) (t t' : Routes r)
        → attach_embedded r extension entries t ≡ ok (entries', t')
        → AfterEmbedded entries entries' t t'
    unfolding attach_embedded
    attach_embedded-Held [] entries' t t' h =
        let e : t ≡ t' = ground arith in
        let d : [] ≡ entries' = ground arith in
        rw (← e, ← d) (record { held = tt; grows = Grows-refl r t; same = λ p. refl })
    attach_embedded-Held ((p, entry) ∷ entries) entries' t t' h =
        elim (Option-cases (extension entry.method)) [
          | inl e ↦ elim (Result-cases (attach_embedded r extension entries t)) [
            | inr (x, k) ↦ absurd (ground arith)
            | inl ((rest, u), k) ↦
                let a = attach_embedded-Held entries rest t u k in
                let d : u ≡ t' = ground arith in
                let c : (p, entry) ∷ rest ≡ entries' = ground arith in
                rw (← d, ← c)
                  (record {
                    held = ((λ rule f. absurd (ground arith)), a.held);
                    grows = a.grows;
                    same = λ q. method_of-cons q p entry entry entries rest refl (a.same q);
                  })
          ]
          | inr (rule, e) ↦ elim (Result-cases (attach r false p entry.method rule t)) [
            | inr (x, k) ↦ absurd (ground arith)
            | inl ((u, target), k) ↦
                let (here, grows) = attach-RuleHeld r false p entry.method rule t u target k in
                elim (Result-cases (attach_embedded r extension entries u)) [
                  | inr (x, l) ↦ absurd (ground arith)
                  | inl ((rest, v), l) ↦
                      let a = attach_embedded-Held entries rest u v l in
                      let d : v ≡ t' = ground arith in
                      let c : (p, record entry { http_rule = some target }) ∷ rest ≡ entries' =
                        ground arith in
                      rw (← d, ← c)
                        (record {
                          held = (
                            (λ rule' f.
                                RuleHeld-same rule rule' entry.method (same_rule (sym e ∙ f))
                                  (RuleHeld-Grows r false entry.method rule a.grows here)),
                            a.held,
                          );
                          grows = Grows-trans r grows a.grows;
                          same = λ q.
                              method_of-cons q p entry (record entry { http_rule = some target })
                                entries rest refl (a.same q);
                        })
                ]
          ]
        ]
