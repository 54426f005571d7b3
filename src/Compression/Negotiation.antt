-- ===== src/Compression/Negotiation.antt =====
-- What `negotiate` answers, over the list of the compressors.
use vanguard_go.Compression.{
  Compressors, NegotiateError, accepted_fields, close_field, fields_from, choose_response,
  first_accepted, get_compressor, negotiate, new_compressors, unknown_compression,
}
use vanguard_go.Compression.Registry.{first_named, get_compressor-new_compressors, unnamed}
use vanguard_go.Prelude.{
  Bool-cases, Bytes, List, Option, Option-cases, Result, [], arith, bytes_eq, bytes_eq_iff, not,
  ◌&&◌, cut, err, false, if◌then◌else◌, inl, inr, is_empty, none, ok, refl, some, sym, ◌∙◌, ◌∷◌,
  ◌≡◌, ◌≢◌, ◌⊎◌,
}
use vanguard_go.Prelude.Map.{get}

module _ {C : Type 0} (identity : Bytes) (name_of : C → Bytes) (list : List C) where
  -- The compressor that a name stands for.
  abbrev pub supported : Bytes → Option C
  supported name =
      if unnamed identity name_of name then none else first_named identity name_of name list

  -- The first of the accepted fields with a supported encoding before its ';', if any has one.
  pub data FirstAccepted : List Bytes → Option C → Type 0 where
    no_field : FirstAccepted [] none
    taken :
        {field : Bytes} {fields : List Bytes} {c : C}
        → supported (cut b';' field).0 ≡ some c
        → FirstAccepted (field ∷ fields) (some c)
    passed :
        {field : Bytes} {fields : List Bytes} {c : Option C}
        → supported (cut b';' field).0 ≡ none
        → FirstAccepted fields c
        → FirstAccepted (field ∷ fields) c

  -- The outcome of a negotiation.
  pub data Negotiated (sent accept : Bytes)
      : Result NegotiateError (Option C × Option C) → Type 0 where
    unknown :
        sent ≢ []
        → sent ≢ identity
        → supported sent ≡ none
        → Negotiated sent accept
            (err (unknown_compression sent (new_compressors identity name_of list).names))
    reused : {c : C} → supported sent ≡ some c → Negotiated sent accept (ok (some c, some c))
    plain :
        {response : Option C}
        → (sent ≡ []) ⊎ (sent ≡ identity)
        → FirstAccepted (accepted_fields accept) response
        → Negotiated sent accept (ok (none, response))

  module _ (cs : Compressors C)
      (lookup : (name : Bytes) → get name cs.by_name ≡ supported name) where
    first_accepted-FirstAccepted :
        (fields : List Bytes)
        → FirstAccepted fields (first_accepted identity name_of fields cs.by_name)
    unfolding first_accepted
    first_accepted-FirstAccepted [] = no_field
    first_accepted-FirstAccepted (field ∷ fields) =
        let later = first_accepted-FirstAccepted fields in
        elim (Option-cases (get (cut b';' field).0 cs.by_name)) [
          | inl e ↦ rw (e, first_accepted) (passed (sym (lookup (cut b';' field).0) ∙ e) later)
          | inr (c, e) ↦ rw (e, first_accepted) (taken (sym (lookup (cut b';' field).0) ∙ e))
        ]

    choose_response-FirstAccepted :
        (accept : Bytes)
        → FirstAccepted (accepted_fields accept) (choose_response identity name_of none accept cs)
    unfolding choose_response accepted_fields fields_from close_field
    choose_response-FirstAccepted [] = no_field
    choose_response-FirstAccepted (c ∷ accept) =
        first_accepted-FirstAccepted (accepted_fields (c ∷ accept))

    plain_sent :
        (sent : Bytes)
        → (not (is_empty sent) && not (bytes_eq sent identity)) ≡ false
        → (sent ≡ []) ⊎ (sent ≡ identity)
    plain_sent [] h = inl refl
    plain_sent (c ∷ sent) h = inr ((bytes_eq_iff (c ∷ sent) identity).0 (ground arith))

    negotiate-Outcome :
        (sent accept : Bytes)
        → cs.names ≡ (new_compressors identity name_of list).names
        → Negotiated sent accept (negotiate identity name_of sent accept cs)
    unfolding negotiate choose_response
    negotiate-Outcome sent accept names =
        elim (Bool-cases (not (is_empty sent) && not (bytes_eq sent identity))) [
          | inr given ↦
              rw (given, negotiate)
                (plain (plain_sent sent given) (choose_response-FirstAccepted accept))
          | inl given ↦ elim (Option-cases (get sent cs.by_name)) [
            | inr (c, e) ↦
                rw (given, e, negotiate, choose_response) (reused (sym (lookup sent) ∙ e))
            | inl e ↦
                rw (given, e, negotiate, names)
                  (unknown (λ d. ground (arith, given, d))
                    (λ d. ground (arith, given, (bytes_eq_iff sent identity).1 d))
                    (sym (lookup sent) ∙ e))
          ]
        ]

  -- For the compressors of a list, the outcome of a negotiation is one of three. An encoding that
  -- is sent, other than "identity", and that no compressor of the list has is refused, with the
  -- names in the error. One that a compressor has is taken for the request and the response. If
  -- none is sent, or "identity", the request has none, and the response the first of the accepted
  -- encodings, without their weights, that a compressor has.
  pub negotiate-Negotiated :
      (sent accept : Bytes)
      → Negotiated sent accept
          (negotiate identity name_of sent accept (new_compressors identity name_of list))
  unfolding get_compressor
  negotiate-Negotiated sent accept =
      negotiate-Outcome (new_compressors identity name_of list)
        (λ name. get_compressor-new_compressors identity name_of name list) sent accept refl
