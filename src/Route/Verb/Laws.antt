-- ===== src/Route/Verb/Laws.antt =====
-- What `splitVerb` gives.
use vanguard_go.Prelude.{
  All-append, All-append_right, Bytes, Lacks, Option-cases, [], ap, append_assoc, arith, cut_last,
  ends_with, false, inl, inr, is_empty, refl, sym, true, ℕ, ◌++◌, ◌∙◌, ◌∷◌, ◌≡◌, ◌≢◌,
}
use vanguard_go.Prelude.Cuts.{
  cut_last-none, cut_last-some, cut_last_at, cut_last-Lacks, ends_with-append,
}
use vanguard_go.Route.Verb.{split_segment, split_verb}

Lacks-segment : (b : ℕ) (front back : Bytes) → Lacks b (front ++ (b'/' ∷ back)) → Lacks b back
Lacks-segment b front back h = (All-append_right (λ c. c ≢ b) front (b'/' ∷ back) h).1

-- A path with the verb that it ends in, or with none.
pub data VerbOf (uri_path : Bytes) : Bytes × Bytes → Type 0 where
  without : VerbOf uri_path (uri_path, [])
  with_verb :
      {path verb : Bytes}
      → uri_path ≡ path ++ (b':' ∷ verb)
      → Lacks b':' verb
      → Lacks b'/' verb
      → VerbOf uri_path (path, verb)

split_segment-VerbOf :
    (uri_path before segment : Bytes)
    → uri_path ≡ before ++ segment
    → Lacks b'/' segment
    → VerbOf uri_path (split_segment uri_path before segment)
unfolding split_segment
split_segment-VerbOf uri_path before segment e l = elim (Option-cases (cut_last b':' segment)) [
  | inl d ↦ rw (d, split_segment) without
  | inr ((value, verb), d) ↦
      let (f, g) = cut_last-some b':' segment value verb d in
      let behind = All-append_right (λ c. c ≢ b'/') value (b':' ∷ verb) (rw f at l) in
      rw (d, split_segment)
        (with_verb (e ∙ (ap (λ s. before ++ s) f ∙ sym (append_assoc before value (b':' ∷ verb)))) g
          behind.1)
]

-- A path is its own text with no verb, or the path, a ':' and the verb, which holds no ':' and no
-- '/'.
pub split_verb-VerbOf : (uri_path : Bytes) → VerbOf uri_path (split_verb uri_path)
unfolding split_verb
split_verb-VerbOf uri_path = elim (Option-cases (cut_last b'/' uri_path)) [
  | inl d ↦
      rw (d, split_verb)
        (split_segment-VerbOf uri_path [] uri_path refl (cut_last-none b'/' uri_path d))
  | inr ((front, segment), d) ↦
      let (f, g) = cut_last-some b'/' uri_path front segment d in
      rw (d, split_verb)
        (split_segment-VerbOf uri_path (front ++ b'/' ∷ []) segment
          (f ∙ sym (append_assoc front (b'/' ∷ []) segment)) g)
]

whole_of_VerbOf :
    (uri_path : Bytes) {r : Bytes × Bytes}
    → VerbOf uri_path r
    → is_empty r.1 ≡ true
    → ends_with uri_path b':' ≡ false
    → r.0 ≡ uri_path
whole_of_VerbOf uri_path without e h = refl
whole_of_VerbOf uri_path (with_verb {path} {verb = []} d l k) e h =
    let contra : ends_with uri_path b':' ≡ true = rw d (ends_with-append path b':') in
    absurd (ground arith)
whole_of_VerbOf uri_path (with_verb {path} {verb = c ∷ verb} d l k) e h = absurd (ground arith)

-- A path with no verb that does not end in ':' is left whole.
pub split_verb_whole :
    (uri_path : Bytes)
    → is_empty (split_verb uri_path).1 ≡ true
    → ends_with uri_path b':' ≡ false
    → (split_verb uri_path).0 ≡ uri_path
split_verb_whole uri_path = whole_of_VerbOf uri_path (split_verb-VerbOf uri_path)

-- The verb behind the last ':' of a path whose verb holds no separator is split off again.
pub split_verb-append :
    (front segment verb : Bytes)
    → Lacks b'/' segment
    → Lacks b'/' verb
    → Lacks b':' verb
    → split_verb (front ++ (b'/' ∷ (segment ++ (b':' ∷ verb)))) ≡ (front ++ (b'/' ∷ segment), verb)
unfolding split_verb split_segment
split_verb-append front segment verb s v w =
    let no_slash : Lacks b'/' (segment ++ (b':' ∷ verb)) =
      All-append (λ c. c ≢ b'/') segment (b':' ∷ verb) s (λ e. ground arith, v) in
    let e = cut_last_at b'/' front (segment ++ (b':' ∷ verb)) no_slash in
    let d = cut_last_at b':' segment verb w in
    rw (e, split_verb)
      (rw (d, split_segment) (ap (λ p. (p, verb)) (append_assoc front (b'/' ∷ []) segment)))

-- A path whose last segment holds no ':' has no verb.
pub split_verb_none :
    (front segment : Bytes)
    → Lacks b'/' segment
    → Lacks b':' segment
    → split_verb (front ++ (b'/' ∷ segment)) ≡ (front ++ (b'/' ∷ segment), [])
unfolding split_verb split_segment
split_verb_none front segment s v =
    let e = cut_last_at b'/' front segment s in
    let d = cut_last-Lacks b':' segment v in rw (e, split_verb) (rw (d, split_segment) refl)
