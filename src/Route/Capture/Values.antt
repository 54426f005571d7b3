-- ===== src/Route/Capture/Values.antt =====
-- What the variables of a path capture.
use vanguard_go.Escape.{PathEncoding, multi, single}
use vanguard_go.Prelude.{
  All, All-append_right, ap₂, false, leb, subst₂, Bytes, Lacks, List, Option, [], ap, append-nil,
  append_assoc, arith, bind-eq, codes, drop, if◌then◌else◌, join, length, length-append,
  length-drop, length-take, none, ok, refl, some, subst, sym, take, take-append, take-drop, ℕ, ◌++◌,
  ◌+◌, ◌-◌, ◌<◌, ◌==◌, ◌≤◌, ◌∙◌, ◌∷◌, ◌≡◌,
}
use vanguard_go.Route.Capture.{
  capture, capture_between, index, index_between, segment_offset, slice, unescape_value,
}
use vanguard_go.Route.Capture.Offsets.{segment_offset-written, slice_part, slice_rest}
use vanguard_go.Template.{PathVariable}
use vanguard_go.Template.Written.{written, written-append}

-- The text of segments, but for its first '/'.
pub written-join : (s : Bytes) (ss : List Bytes) → s ++ written ss ≡ join (s ∷ ss) (codes "/")
written-join s [] = append-nil s
written-join s (x ∷ ss) = ap (λ r. s ++ (b'/' ∷ r)) (written-join x ss)

-- Where the text of the segments before a variable ends.
start_at :
    (pre : List Bytes) (m : Bytes) (ms : List Bytes)
    → All (Lacks b'/') (pre ++ (m ∷ ms))
    → segment_offset (written (pre ++ (m ∷ ms))) (length pre) ≡ ok (length (written pre))
start_at pre m ms h =
    segment_offset-written (length pre) (pre ++ (m ∷ ms)) h
      (omega (arith, length-append pre (m ∷ ms)))
    ∙ ap (λ ss. ok (length (written ss))) (take-append pre (m ∷ ms))

text_at :
    (pre : List Bytes) (m : Bytes) (ms : List Bytes)
    → written (pre ++ (m ∷ ms)) ≡ (written pre ++ b'/' ∷ []) ++ (m ++ written ms)
text_at pre m ms =
    written-append pre (m ∷ ms) ∙ sym (append_assoc (written pre) (b'/' ∷ []) (m ++ written ms))

-- The slice of a path that holds segments of it, without their first '/'.
value_at :
    (pre post : List Bytes) (m : Bytes) (ms : List Bytes) (from to : ℕ)
    → from ≡ length (written pre) + 1
    → to ≡ length (written pre) + length (written (m ∷ ms))
    → slice (written (pre ++ ((m ∷ ms) ++ post))) from to ≡ ok (m ++ written ms)
value_at pre post m ms from to f t =
    let parts : written ((m ∷ ms) ++ post) ≡ (b'/' ∷ (m ++ written ms)) ++ written post =
      written-append (m ∷ ms) post in
    let whole : written (pre ++ ((m ∷ ms) ++ post))
        ≡ (written pre ++ b'/' ∷ []) ++ ((m ++ written ms) ++ written post) =
      written-append pre ((m ∷ ms) ++ post)
      ∙ ap (λ r. written pre ++ r) parts
      ∙ sym (append_assoc (written pre) (b'/' ∷ []) ((m ++ written ms) ++ written post)) in
    rw whole (
      slice_part (written pre ++ b'/' ∷ []) (m ++ written ms) (written post) from to
        (omega (arith, length-append (written pre) (b'/' ∷ [])))
        (omega (arith, length-append (written pre) (b'/' ∷ []))))

capture_to_end :
    (pre : List Bytes) (m : Bytes) (ms : List Bytes)
    → All (Lacks b'/') (pre ++ (m ∷ ms))
    → capture_between (written (pre ++ (m ∷ ms))) (length pre) none
      ≡ unescape_value (m ++ written ms) multi
unfolding capture_between
capture_to_end pre m ms h =
    let value : slice (written (pre ++ (m ∷ ms))) (length (written pre) + 1)
          (length (written (pre ++ (m ∷ ms))))
        ≡ ok (m ++ written ms) =
      rw (text_at pre m ms) (
        slice_rest (written pre ++ b'/' ∷ []) (m ++ written ms) (length (written pre) + 1)
          (length ((written pre ++ b'/' ∷ []) ++ (m ++ written ms)))
          (omega (arith, length-append (written pre) (b'/' ∷ []))) refl) in
    bind-eq _ _ (start_at pre m ms h) (bind-eq _ _ value refl)

-- The bounded case, on the three parts of a path.
capture_between_parts :
    (pre post : List Bytes) (m : Bytes) (ms : List Bytes)
    → All (Lacks b'/') (pre ++ ((m ∷ ms) ++ post))
    → All (Lacks b'/') ((m ∷ ms) ++ post)
    → capture_between
        (written (pre ++ ((m ∷ ms) ++ post)))
        (length pre)
        (some (length pre + length (m ∷ ms)))
      ≡ unescape_value (m ++ written ms) (if length (m ∷ ms) == 1 then single else multi)
unfolding capture_between
capture_between_parts pre post m ms h k =
    let path = written (pre ++ ((m ∷ ms) ++ post)) in
    let rest : slice path (length (written pre)) (length path) ≡ ok (written ((m ∷ ms) ++ post)) =
      rw (written-append pre ((m ∷ ms) ++ post)) (
        slice_rest (written pre) (written ((m ∷ ms) ++ post)) (length (written pre))
          (length (written pre ++ written ((m ∷ ms) ++ post))) refl refl) in
    let n : length pre + length (m ∷ ms) - length pre ≡ length (m ∷ ms) = omega arith in
    let ends : segment_offset (written ((m ∷ ms) ++ post))
          (length pre + length (m ∷ ms) - length pre)
        ≡ ok (length (written (m ∷ ms))) =
      rw n (segment_offset-written (length (m ∷ ms)) ((m ∷ ms) ++ post) k (omega arith))
      ∙ ap (λ ss. ok (length (written ss))) (take-append (m ∷ ms) post) in
    bind-eq _ _ (start_at pre m (ms ++ post) h) (
      bind-eq _ _ rest (
        bind-eq _ _ ends (
          bind-eq _ _
            (value_at pre post m ms (length (written pre) + 1)
              (length (written pre) + length (written (m ∷ ms))) refl refl)
            (ap (λ i. unescape_value (m ++ written ms) (if i == 1 then single else multi)) n))))

-- A variable captures at least one of `n` segments, and none behind them.
abbrev pub IsWithin : ℕ → ℕ → Option ℕ → Type 0
IsWithin n from none = from < n
IsWithin n from (some to) = (from < to) × (to ≤ n)

abbrev pub value_mode : ℕ → Option ℕ → PathEncoding
value_mode from none = multi
value_mode from (some to) = if to - from == 1 then single else multi

-- The captured segments are those of `index`, and the value is their decoded text.
abbrev CapturesIndexed : List Bytes → ℕ → Option ℕ → Type 0
CapturesIndexed us from to =
    (vs : List Bytes) × (index_between from to us ≡ ok vs)
    × (0 < length vs)
    × (capture_between (written us) from to
        ≡ unescape_value (join vs (codes "/")) (value_mode from to))

to_end-CapturesIndexed :
    (pre rest : List Bytes)
    → All (Lacks b'/') (pre ++ rest)
    → 0 < length rest
    → CapturesIndexed (pre ++ rest) (length pre) none
to_end-CapturesIndexed pre [] h l = absurd (omega arith)
to_end-CapturesIndexed pre (m ∷ ms) h l =
    let rest = slice_rest pre (m ∷ ms) (length pre) (length (pre ++ (m ∷ ms))) refl refl in
    let inside : leb (length (pre ++ (m ∷ ms))) (length pre) ≡ false =
      ground (arith, length-append pre (m ∷ ms)) in
    (
      m ∷ ms,
      unfold index_between in rw inside rest,
      omega arith,
      capture_to_end pre m ms h ∙ ap (λ s. unescape_value s multi) (written-join m ms),
    )

parts-CapturesIndexed :
    (pre mid post : List Bytes)
    → All (Lacks b'/') (pre ++ (mid ++ post))
    → 0 < length mid
    → CapturesIndexed (pre ++ (mid ++ post)) (length pre) (some (length pre + length mid))
parts-CapturesIndexed pre [] post h l = absurd (omega arith)
parts-CapturesIndexed pre (m ∷ ms) post h l =
    let k = All-append_right (Lacks b'/') pre ((m ∷ ms) ++ post) h in
    let n : length pre + length (m ∷ ms) - length pre ≡ length (m ∷ ms) = omega arith in
    (
      m ∷ ms,
      unfold index_between in
          slice_part pre (m ∷ ms) post (length pre) (length pre + length (m ∷ ms)) refl refl,
      omega arith,
      capture_between_parts pre post m ms h k
          ∙ ap₂ (λ s i. unescape_value s (if i == 1 then single else multi)) (written-join m ms)
              (sym n),
    )

captures_between :
    (us : List Bytes) (from : ℕ) (to : Option ℕ)
    → All (Lacks b'/') us
    → IsWithin (length us) from to
    → CapturesIndexed us from to
captures_between us from none h w =
    let e = take-drop from us in
    let l = length-take from us (omega arith) in
    subst₂ (λ ss n. CapturesIndexed ss n none) (sym e) l
      (to_end-CapturesIndexed (take from us) (drop from us) (rw e at h)
        (omega (arith, length-drop from us)))
captures_between us from (some to) h (w, k) =
    let e = take-drop from us in
    let d = take-drop (to - from) (drop from us) in
    let long = length-drop from us (omega arith) in
    let l = length-take from us (omega arith) in
    let m = length-take (to - from) (drop from us) (omega arith) in
    let whole : us
        ≡ take from us ++ (take (to - from) (drop from us) ++ drop (to - from) (drop from us)) =
      e ∙ ap (λ r. take from us ++ r) d in
    let at =
      parts-CapturesIndexed (take from us) (take (to - from) (drop from us))
        (drop (to - from) (drop from us)) (rw whole at h) (omega arith) in
    let ends : length (take from us) + length (take (to - from) (drop from us)) ≡ to =
      omega arith in
    subst (λ ss. CapturesIndexed ss from (some to)) (sym whole)
      (subst₂
        (λ n i.
          CapturesIndexed
            (take from us ++ (take (to - from) (drop from us) ++ drop (to - from) (drop from us))) n
            (some i))
        l ends at)

-- On the text of segments without '/', a variable that lies within them captures the decoded text
-- of the segments that `index` selects, at least one, joined by '/': in the mode of a single
-- segment if it is one segment wide, and else in the mode of several. No slice is out of range.
pub capture-index :
    (v : PathVariable) (us : List Bytes)
    → All (Lacks b'/') us
    → IsWithin (length us) v.start v.end_segment
    → (vs : List Bytes) × (index v us ≡ ok vs)
      × (0 < length vs)
      × (capture v (written us)
          ≡ unescape_value (join vs (codes "/")) (value_mode v.start v.end_segment))
unfolding index capture
capture-index v us = captures_between us v.start v.end_segment
