-- ===== src/Fields/Resolve.antt =====
-- The resolver of field paths against the walks of a message: sound, complete, and total.
use vanguard_go.Fields.{
  PathError, append_from, append_part, append_path_to_field_descriptors, child_message, find_field,
  out_of_fuel, resolve_path_to_field_descriptors,
}
use vanguard_go.Fields.Descriptors.{Reflection}
use vanguard_go.Fields.Walk.{
  Found, Walk, Walk-nonempty, Walked, append_part-Found, child_message-eq, descend, last,
}
use vanguard_go.Prelude.{
  All, Bool, Bool-cases, Bytes, Lacks, List, Option-cases, Result, Result-cases, [], ap,
  append_assoc, append-nil, arith, codes, cut, err, false, inl, inr, is_empty, join, length,
  length-append, ok, refl, some, suc, zero, ℕ, ◌++◌, ◌≤◌, ◌∙◌, ◌∷◌, ◌≡◌, ◌≢◌,
}
use vanguard_go.Prelude.Cuts.{CutOf, cut-CutOf, cut-append, cut_behind, cut_none, uncut}

-- A part with some bytes and no '.'.
abbrev pub IsPart : Bytes → Type 0
IsPart part = (part ≢ []) × Lacks b'.' part

is_empty_part : (part s : Bytes) → part ≢ [] → is_empty (part ++ s) ≡ false
is_empty_part [] s h = absurd (h refl)
is_empty_part (c ∷ part) s h = refl

is_empty-join :
    (part : Bytes) (parts : List Bytes)
    → part ≢ []
    → is_empty (join (part ∷ parts) (codes ".")) ≡ false
is_empty-join part [] h = rw (← append-nil part) (is_empty_part part [] h)
is_empty-join part (p ∷ parts) h = is_empty_part part (b'.' ∷ join (p ∷ parts) (codes ".")) h

cut_shorter :
    {s : Bytes} {p : Bytes × Bytes} {fuel : ℕ}
    → CutOf b'.' s p
    → is_empty p.1 ≡ false
    → length s ≤ suc fuel
    → length p.1 ≤ fuel
cut_shorter (uncut l) e h = absurd (ground arith)
cut_shorter (cut_behind {front} {back} l d) e h =
    omega (arith, ap length d, length-append front (b'.' ∷ back))

module _ (r : Reflection) where
  open r use {Message, Field}

  append_from-Found :
      (fuel : ℕ) (path : Bytes) (from_json : Bool) (result : List Field) (msg : Message)
      (remaining : Bytes) (fields : List Field)
      → append_from r fuel path from_json result msg remaining ≡ ok fields
      → Found r from_json msg remaining result fields
  unfolding append_from
  append_from-Found zero path from_json result msg remaining fields h = absurd (ground arith)
  append_from-Found (suc fuel) path from_json result msg remaining fields h =
      append_part-Found r (append_from r fuel path from_json) path from_json result msg remaining
        (cut b'.' remaining).0 (cut b'.' remaining).1 fields (cut-CutOf b'.' remaining)
        (λ result' child k.
          append_from-Found fuel path from_json result' child (cut b'.' remaining).1 fields k)
        h

  -- The fields that a path resolves to are those of a walk from the message along the parts of
  -- the path, none of which holds a '.'; the path may end in one '.' more.
  pub resolve-Walked :
      (msg : Message) (path : Bytes) (from_json : Bool) (fields : List Field)
      → resolve_path_to_field_descriptors r msg path from_json ≡ ok fields
      → Walked r from_json msg path fields
  unfolding resolve_path_to_field_descriptors append_path_to_field_descriptors
  resolve-Walked msg path from_json fields h = elim (Bool-cases (is_empty path)) [
    | inl e ↦ absurd (ground arith)
    | inr e ↦
        let (more, d, w) =
          append_from-Found (length path) path from_json [] msg path fields (rw e at h) in
        rw d w
  ]

  append_part_last :
      (loop : List Field → Message → Bytes → Result PathError (List Field)) (path : Bytes)
      (from_json : Bool) (result : List Field) (msg : Message) (part : Bytes) (field : Field)
      → find_field r from_json part msg ≡ some field
      → append_part r loop path from_json result msg part [] ≡ ok (result ++ field ∷ [])
  unfolding append_part
  append_part_last loop path from_json result msg part field f = rw (f, append_part)

  append_part_inner :
      (loop : List Field → Message → Bytes → Result PathError (List Field)) (path : Bytes)
      (from_json : Bool) (result : List Field) (msg child : Message) (part rest : Bytes)
      (field : Field)
      → find_field r from_json part msg ≡ some field
      → is_empty rest ≡ false
      → child_message r path part field ≡ ok child
      → append_part r loop path from_json result msg part rest
        ≡ loop (result ++ field ∷ []) child rest
  unfolding append_part
  append_part_inner loop path from_json result msg child part rest field f e m =
      rw (f, append_part) (rw (e, m))

  append_from-Walk :
      (fuel : ℕ) (path : Bytes) (from_json : Bool) (result : List Field) {msg : Message}
      {parts : List Bytes} {fields : List Field}
      → Walk r from_json msg parts fields
      → All IsPart parts
      → length parts ≤ fuel
      → append_from r fuel path from_json result msg (join parts (codes "."))
        ≡ ok (result ++ fields)
  unfolding append_from
  append_from-Walk zero path from_json result w h l = absurd (omega (arith, Walk-nonempty r w))
  append_from-Walk (suc fuel) path from_json result {msg} (last {part} {field} f) ((n, k), _) l =
      rw (cut_none b'.' part k) (
        append_part_last (append_from r fuel path from_json) path from_json result msg part field f)
  append_from-Walk (suc fuel) path from_json result (descend {part} {parts = []} f s m w) h l =
      absurd (omega (arith, Walk-nonempty r w))
  append_from-Walk (suc fuel) path from_json result {msg}
        (descend {child} {part} {field} {parts = p ∷ parts} {fields} f s m w) ((n, k), hs) l =
      let rest = join (p ∷ parts) (codes ".") in
      rw (cut-append b'.' part rest k) (
        append_part_inner (append_from r fuel path from_json) path from_json result msg child part
          rest field f (is_empty-join p parts hs.0.0) (child_message-eq r path part field child s m)
        ∙ append_from-Walk fuel path from_json (result ++ field ∷ []) w hs (omega arith)
        ∙ ap (λ x. ok x) (append_assoc result (field ∷ []) fields))

  length-join :
      (parts : List Bytes) → All IsPart parts → length parts ≤ length (join parts (codes "."))
  length-join [] h = omega arith
  length-join ([] ∷ parts) ((n, _), _) = absurd (n refl)
  length-join ((c ∷ part) ∷ []) h = omega arith
  length-join ((c ∷ part) ∷ (p ∷ parts)) (_, h) =
      omega
        (arith, length-join (p ∷ parts) h, length-append part (b'.' ∷ join (p ∷ parts) (codes ".")))

  -- A walk from the message along parts that are not empty and hold no '.' is found: their path
  -- resolves to its fields.
  pub resolve-Walk :
      (msg : Message) (from_json : Bool) (parts : List Bytes) (fields : List Field)
      → All IsPart parts
      → Walk r from_json msg parts fields
      → resolve_path_to_field_descriptors r msg (join parts (codes ".")) from_json ≡ ok fields
  unfolding resolve_path_to_field_descriptors append_path_to_field_descriptors
  resolve-Walk msg from_json [] fields h w = absurd (omega (arith, Walk-nonempty r w))
  resolve-Walk msg from_json (p ∷ parts) fields h w = rw (is_empty-join p parts h.0.0) (
      append_from-Walk (length (join (p ∷ parts) (codes "."))) (join (p ∷ parts) (codes "."))
        from_json [] w h (length-join (p ∷ parts) h))

  append_part_fuel :
      (loop : List Field → Message → Bytes → Result PathError (List Field)) (path : Bytes)
      (from_json : Bool) (result : List Field) (msg : Message) (part rest : Bytes)
      → ((result' : List Field) (child : Message)
          → is_empty rest ≡ false
          → loop result' child rest ≢ err out_of_fuel)
      → append_part r loop path from_json result msg part rest ≢ err out_of_fuel
  unfolding append_part child_message
  append_part_fuel loop path from_json result msg part rest total h =
      elim (Option-cases (find_field r from_json part msg)) [
        | inl f ↦ absurd (ground arith)
        | inr (field, f) ↦ elim (Bool-cases (is_empty rest)) [
          | inl e ↦ absurd (ground arith)
          | inr e ↦ elim (Result-cases (child_message r path part field)) [
            | inl (child, m) ↦ total (result ++ field ∷ []) child e (ground arith)
            | inr (x, m) ↦ absurd (ground arith)
          ]
        ]
      ]

  append_from_fuel :
      (fuel : ℕ) (path : Bytes) (from_json : Bool) (result : List Field) (msg : Message)
      (remaining : Bytes)
      → is_empty remaining ≡ false
      → length remaining ≤ fuel
      → append_from r fuel path from_json result msg remaining ≢ err out_of_fuel
  unfolding append_from
  append_from_fuel zero path from_json result msg [] e l = absurd (ground arith)
  append_from_fuel zero path from_json result msg (c ∷ s) e l = absurd (omega arith)
  append_from_fuel (suc fuel) path from_json result msg remaining e l =
      append_part_fuel (append_from r fuel path from_json) path from_json result msg
        (cut b'.' remaining).0 (cut b'.' remaining).1
        (λ result' child k.
          append_from_fuel fuel path from_json result' child (cut b'.' remaining).1 k
            (cut_shorter (cut-CutOf b'.' remaining) k l))

  -- The loop always ends: a path resolves to fields or to an error of the source.
  pub resolve_total :
      (msg : Message) (path : Bytes) (from_json : Bool)
      → resolve_path_to_field_descriptors r msg path from_json ≢ err out_of_fuel
  unfolding resolve_path_to_field_descriptors append_path_to_field_descriptors
  resolve_total msg path from_json = elim (Bool-cases (is_empty path)) [
    | inl e ↦ rw e (λ d. ground arith)
    | inr e ↦ rw e (append_from_fuel (length path) path from_json [] msg path e (omega arith))
  ]
