-- ===== src/Route/Templates.antt =====
-- A canonical template as a key of the trie: `insert` splits it into the segments and the verb that
-- the parser wrote.
use vanguard_go.Escape.Bytewise.{is_literal-IsPlain}
use vanguard_go.Escape.Shape.{IsLiteral}
use vanguard_go.Prelude.{
  All, All-imp, Bool, Bytes, Lacks, List, Option, [], ap, append-nil, append_assoc, arith, codes,
  drop, inl, inr, length, none, refl, some, split, sym, ◌++◌, ◌<◌, ◌∙◌, ◌∷◌, ◌≡◌, ◌≢◌,
}
use vanguard_go.Route.Trie.{Trie, insert, insert_at}
use vanguard_go.Route.Trie.Insert.{insert-insert_at}
use vanguard_go.Route.Verb.{split_verb}
use vanguard_go.Route.Verb.Laws.{split_verb-append, split_verb_none}
use vanguard_go.Template.{PathVariable}
use vanguard_go.Template.Canonical.{IsTemplate, IsVerb, verb_suffix}
use vanguard_go.Template.Written.{IsSegment, IsTrail, written}

abbrev NoSeparator : Bytes → Type 0
NoSeparator s = Lacks b'/' s × Lacks b':' s

literal-NoSeparator : (s : Bytes) → All IsLiteral s → NoSeparator s
literal-NoSeparator s h = (
  All-imp IsLiteral (λ c. c ≢ b'/') s (λ c l. (is_literal-IsPlain c l).0) h,
  All-imp IsLiteral (λ c. c ≢ b':') s (λ c l. (is_literal-IsPlain c l).1) h,
)

star-NoSeparator : NoSeparator (codes "*")
star-NoSeparator = omega arith

double_star-NoSeparator : NoSeparator (codes "**")
double_star-NoSeparator = omega arith

segment-NoSeparator : (s : Bytes) → IsSegment s → NoSeparator s
segment-NoSeparator s (inl e) = rw e star-NoSeparator
segment-NoSeparator s (inr l) = literal-NoSeparator s l.literal_bytes

trail-NoSeparator : (seen : Bool) (ss : List Bytes) → IsTrail seen ss → All NoSeparator ss
trail-NoSeparator seen [] h = tt
trail-NoSeparator seen (s ∷ ss) (inl (h, k)) =
    (segment-NoSeparator s h, trail-NoSeparator seen ss k)
trail-NoSeparator seen (s ∷ ss) (inr (e, d, _)) = rw (e, d) (double_star-NoSeparator, tt)

split-written :
    (s : Bytes) (ss : List Bytes)
    → Lacks b'/' s
    → All NoSeparator ss
    → split (s ++ written ss) b'/' ≡ s ∷ ss
split-written [] [] h k = refl
split-written [] (x ∷ ss) h ((k, _), ks) = ap (λ r. [] ∷ r) (split-written x ss k ks)
split-written (c ∷ s) ss (h, hs) k = ground (arith, split-written s ss hs k)

-- The text of segments ends in '/' and the last of them.
record EndsIn (text : Bytes) : Type 0 where
  front : Bytes
  last : Bytes
  eq : text ≡ front ++ (b'/' ∷ last)
  plain : NoSeparator last

written-EndsIn :
    (s : Bytes) (ss : List Bytes) → All NoSeparator (s ∷ ss) → EndsIn (written (s ∷ ss))
written-EndsIn s [] (h, _) = record {
  front = [];
  last = s;
  eq = ap (λ r. b'/' ∷ r) (append-nil s);
  plain = h;
}
written-EndsIn s (x ∷ ss) (h, hs) =
    let e = written-EndsIn x ss hs in
    record {
      front = b'/' ∷ (s ++ e.front);
      last = e.last;
      eq =
          ap (λ r. b'/' ∷ r) (ap (λ r. s ++ r) e.eq ∙ sym (append_assoc s e.front (b'/' ∷ e.last)));
      plain = e.plain;
    }

abbrev pub verb_text : Option Bytes → Bytes
verb_text none = []
verb_text (some verb) = verb

split_verb-EndsIn :
    (text : Bytes) (verb : Option Bytes)
    → EndsIn text
    → IsVerb verb
    → split_verb (text ++ verb_suffix verb) ≡ (text, verb_text verb)
split_verb-EndsIn text none e h =
    rw (append-nil, e.eq) (split_verb_none e.front e.last e.plain.0 e.plain.1)
split_verb-EndsIn text (some verb) e h =
    let v = literal-NoSeparator verb h.literal_bytes in
    rw (e.eq, append_assoc) (split_verb-append e.front e.last verb e.plain.0 v.0 v.1)

-- A canonical template is split into the segments and the verb that it was written from.
pub split_verb-template :
    {template : Bytes} {vars : List PathVariable} (h : IsTemplate template vars)
    → (split_verb template ≡ (written h.segments, verb_text h.verb))
      × (split (drop 1 (written h.segments)) b'/' ≡ h.segments)
split_verb-template {template} {vars} h = go h.segments h.nonempty h.trail h.text
  where
    go :
        (ss : List Bytes)
        → 0 < length ss
        → IsTrail h.double_star ss
        → template ≡ written ss ++ verb_suffix h.verb
        → (split_verb template ≡ (written ss, verb_text h.verb))
          × (split (drop 1 (written ss)) b'/' ≡ ss)
    go [] l t e = absurd (omega arith)
    go (s ∷ ss) l t e =
        let plain = trail-NoSeparator h.double_star (s ∷ ss) t in
        (
          rw e (split_verb-EndsIn (written (s ∷ ss)) h.verb (written-EndsIn s ss plain) h.verb_ok),
          split-written s ss plain.0.0 plain.1,
        )

-- `insert` puts a canonical template under its segments and its verb.
pub insert-template :
    {A : Type 0} {template : Bytes} {vars : List PathVariable} (h : IsTemplate template vars)
    (method : Bytes) (a : A) (t : Trie A)
    → insert method template a t ≡ insert_at h.segments (verb_text h.verb) method a t
insert-template {template} h method a t =
    let (e, d) = split_verb-template h in
    rw (insert-insert_at, e) (ap (λ ss. insert_at ss (verb_text h.verb) method a t) d)
