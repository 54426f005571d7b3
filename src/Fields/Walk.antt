-- ===== src/Fields/Walk.antt =====
-- What a field path means: a walk from message to message, and that the resolver finds it.
use vanguard_go.Fields.{PathError, append_part, child_message, find_field}
use vanguard_go.Fields.Descriptors.{Reflection}
use vanguard_go.Prelude.{
  All, Result, Bool, Bool-cases, Bytes, Lacks, List, Option-cases, [], ap, append_assoc, arith,
  bind-ok, codes, false, inl, inr, is_empty, join, length, ok, refl, some, sym, true, ◌>>=◌, ◌++◌,
  ◌<◌, ◌∙◌, ◌∷◌, ◌≡◌, ◌⊎◌,
}
use vanguard_go.Prelude.Cuts.{CutOf, cut_behind, uncut}

-- A path with these parts; the source also accepts one '.' behind them.
abbrev pub PathOf : List Bytes → Bytes → Type 0
PathOf parts path = (path ≡ join parts (codes ".")) ⊎ (path ≡ join parts (codes ".") ++ codes ".")

PathOf-cons :
    (part : Bytes) (parts : List Bytes) (rest path : Bytes)
    → 0 < length parts
    → PathOf parts rest
    → path ≡ part ++ (b'.' ∷ rest)
    → PathOf (part ∷ parts) path
PathOf-cons part [] rest path l h e = absurd (omega arith)
PathOf-cons part (p ∷ parts) rest path l (inl h) e = inl (e ∙ ap (λ r. part ++ (b'.' ∷ r)) h)
PathOf-cons part (p ∷ parts) rest path l (inr h) e = inr (
    e
    ∙ ap (λ r. part ++ (b'.' ∷ r)) h
    ∙ sym (append_assoc part (b'.' ∷ join (p ∷ parts) (codes ".")) (codes ".")))

is_empty-eq : (s : Bytes) → is_empty s ≡ true → s ≡ []
is_empty-eq [] h = refl
is_empty-eq (c ∷ s) h = absurd (ground arith)

module _ (r : Reflection) where
  open r use {Message, Field, is_repeated, message_of}

  -- The parts of a path name fields, each in the message of the field before it; all but the last
  -- are singular messages.
  pub data Walk (from_json : Bool) : Message → List Bytes → List Field → Type 0 where
    last :
        {msg : Message} {part : Bytes} {field : Field}
        → find_field r from_json part msg ≡ some field
        → Walk from_json msg (part ∷ []) (field ∷ [])
    descend :
        {msg child : Message} {part : Bytes} {field : Field} {parts : List Bytes}
        {fields : List Field}
        → find_field r from_json part msg ≡ some field
        → is_repeated field ≡ false
        → message_of field ≡ some child
        → Walk from_json child parts fields
        → Walk from_json msg (part ∷ parts) (field ∷ fields)

  pub Walk-nonempty :
      {from_json : Bool} {msg : Message} {parts : List Bytes} {fields : List Field}
      → Walk from_json msg parts fields
      → (0 < length parts) × (length parts ≡ length fields)
  Walk-nonempty (last f) = (omega arith, refl)
  Walk-nonempty (descend f s m w) = let (a, b) = Walk-nonempty w in (omega arith, omega arith)

  pub record Walked (from_json : Bool) (msg : Message) (path : Bytes) (fields : List Field)
      : Type 0 where
    pub parts : List Bytes
    pub walk : Walk from_json msg parts fields
    pub path_of : PathOf parts path
    pub plain : All (Lacks b'.') parts

  child_message_ok :
      (path part : Bytes) (field : Field) (child : Message)
      → child_message r path part field ≡ ok child
      → (is_repeated field ≡ false) × (message_of field ≡ some child)
  unfolding child_message
  child_message_ok path part field child h = ground arith

  pub child_message-eq :
      (path part : Bytes) (field : Field) (child : Message)
      → is_repeated field ≡ false
      → message_of field ≡ some child
      → child_message r path part field ≡ ok child
  unfolding child_message
  child_message-eq path part field child s m = ground arith

  abbrev pub Found : Bool → Message → Bytes → List Field → List Field → Type 0
  Found from_json msg remaining result fields =
      (more : List Field) × (fields ≡ result ++ more) × Walked from_json msg remaining more

  pub append_part-Found :
      (loop : List Field → Message → Bytes → Result PathError (List Field)) (path : Bytes)
      (from_json : Bool) (result : List Field) (msg : Message) (whole part rest : Bytes)
      (fields : List Field)
      → CutOf b'.' whole (part, rest)
      → ((result' : List Field) (child : Message)
          → loop result' child rest ≡ ok fields
          → Found from_json child rest result' fields)
      → append_part r loop path from_json result msg part rest ≡ ok fields
      → Found from_json msg whole result fields
  unfolding append_part
  append_part-Found loop path from_json result msg whole part rest fields c ih h =
      elim (Option-cases (find_field r from_json part msg)) [
        | inl f ↦ absurd (ground arith)
        | inr (field, f) ↦ elim (Bool-cases (is_empty rest)) [
          | inl e ↦
              let d : result ++ field ∷ [] ≡ fields = ground arith in
              (field ∷ [], sym d, last_part c f e)
          | inr e ↦
              let h' : (child_message r path part field >>= λ child.
              loop (result ++ field ∷ []) child rest)
                  ≡ ok fields =
                ground arith in
              let (child, m, k) = bind-ok (child_message r path part field) _ h' in
              let (more, d, w) = ih (result ++ field ∷ []) child k in
              let (single, at) = child_message_ok path part field child m in
              (
                field ∷ more,
                d ∙ append_assoc result (field ∷ []) more,
                inner_part c f e single at w,
              )
        ]
      ]
    where
      last_part :
          {whole part rest : Bytes} {msg : Message} {field : Field}
          → CutOf b'.' whole (part, rest)
          → find_field r from_json part msg ≡ some field
          → is_empty rest ≡ true
          → Walked from_json msg whole (field ∷ [])
      last_part {whole} (uncut l) f e = record {
        parts = whole ∷ [];
        walk = last f;
        path_of = inl refl;
        plain = (l, tt);
      }
      last_part (cut_behind {front} {back} l d) f e =
          let b : back ≡ [] = is_empty-eq back e in
          record { parts = front ∷ []; walk = last f; path_of = inr (rw (← b) d); plain = (l, tt) }

      inner_part :
          {whole part rest : Bytes} {msg child : Message} {field : Field} {more : List Field}
          → CutOf b'.' whole (part, rest)
          → find_field r from_json part msg ≡ some field
          → is_empty rest ≡ false
          → is_repeated field ≡ false
          → message_of field ≡ some child
          → Walked from_json child rest more
          → Walked from_json msg whole (field ∷ more)
      inner_part (uncut l) f e single at w = absurd (ground arith)
      inner_part {whole} (cut_behind {front} {back} l d) f e single at w = record {
        parts = front ∷ w.parts;
        walk = descend f single at w.walk;
        path_of = PathOf-cons front w.parts back whole (Walk-nonempty w.walk).0 w.path_of d;
        plain = (l, w.plain);
      }
