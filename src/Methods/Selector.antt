-- ===== src/Methods/Selector.antt =====
-- The procedure that a selector names.
use vanguard_go.Methods.{procedure_from_selector}
use vanguard_go.Prelude.{
  Bytes, Lacks, Option-cases, [], ap, arith, cut_last, false, inl, inr, is_empty, refl, some, ◌++◌,
  ◌∙◌, ◌∷◌, ◌↔◌, ◌≡◌, ◌≢◌,
}
use vanguard_go.Prelude.Cuts.{cut_last-some, cut_last_at}

-- A selector is a service, a '.' and a name without '.', none of them empty; its procedure is the
-- service and the name, each behind a '/'.
pub record Names (selector procedure : Bytes) : Type 0 where
  pub service : Bytes
  pub name : Bytes
  pub parts : selector ≡ service ++ (b'.' ∷ name)
  pub service_given : service ≢ []
  pub name_given : name ≢ []
  pub name_plain : Lacks b'.' name
  pub result : procedure ≡ b'/' ∷ (service ++ (b'/' ∷ name))

is_empty-false : (s : Bytes) → s ≢ [] → is_empty s ≡ false
is_empty-false [] h = absurd (h refl)
is_empty-false (c ∷ s) h = refl

-- A selector gives a procedure exactly when it names that procedure.
pub procedure_from_selector_iff :
    (selector procedure : Bytes)
    → (procedure_from_selector selector ≡ some procedure) ↔ Names selector procedure
unfolding procedure_from_selector
procedure_from_selector_iff selector procedure = (to, from)
  where
    to : procedure_from_selector selector ≡ some procedure → Names selector procedure
    to h = elim (Option-cases (cut_last b'.' selector)) [
      | inl e ↦ absurd (ground arith)
      | inr ((service, name), e) ↦
          let (parts, plain) = cut_last-some b'.' selector service name e in
          record {
            service = service;
            name = name;
            parts = parts;
            service_given = λ d. ground arith;
            name_given = λ d. ground arith;
            name_plain = plain;
            result = ground arith;
          }
    ]

    from : Names selector procedure → procedure_from_selector selector ≡ some procedure
    from n =
        let e : cut_last b'.' selector ≡ some (n.service, n.name) =
          ap (cut_last b'.') n.parts ∙ cut_last_at b'.' n.service n.name n.name_plain in
        ground (
          arith,
          e,
          is_empty-false n.service n.service_given,
          is_empty-false n.name n.name_given,
          n.result,
        )
