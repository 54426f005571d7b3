-- ===== src/Route/Capture/Offsets.antt =====
-- Where the segments of a path stand in its text.
use vanguard_go.Prelude.{
  All, Bytes, Lacks, List, [], ap, append-nil, append_assoc, arith, drop-append, length,
  length-append, none, ok, refl, some, suc, sym, take, take-append, zero, ℕ, ◌++◌, ◌+◌, ◌-◌, ◌<◌,
  ◌≤◌, ◌∙◌, ◌∷◌, ◌≡◌,
}
use vanguard_go.Route.Capture.{index_byte, segment_offset, segment_offset_from, slice}
use vanguard_go.Template.Written.{written}

index_byte-none : (s : Bytes) (b : ℕ) → Lacks b s → index_byte s b ≡ none
unfolding index_byte
index_byte-none [] b h = refl
index_byte-none (c ∷ s) b h = ground (arith, index_byte-none s b h.1)

index_byte-some : (s r : Bytes) (b : ℕ) → Lacks b s → index_byte (s ++ (b ∷ r)) b ≡ some (length s)
unfolding index_byte
index_byte-some [] r b h = ground arith
index_byte-some (c ∷ s) r b h = rw (index_byte-some s r b h.1) (ground arith)

-- The middle of three parts, by their lengths.
pub slice_part :
    {A : Type 0} (xs ys zs : List A) (from to : ℕ)
    → from ≡ length xs
    → to ≡ length xs + length ys
    → slice (xs ++ (ys ++ zs)) from to ≡ ok ys
unfolding slice
slice_part xs ys zs from to f t =
    let e : to - from ≡ length ys = omega arith in
    let l : length xs + length ys ≤ length (xs ++ (ys ++ zs)) =
      omega (arith, length-append xs (ys ++ zs), length-append ys zs) in
    rw (e, f, drop-append, take-append) (ground arith)

-- All that follows a part.
pub slice_rest :
    {A : Type 0} (xs ys : List A) (from to : ℕ)
    → from ≡ length xs
    → to ≡ length (xs ++ ys)
    → slice (xs ++ ys) from to ≡ ok ys
slice_rest xs ys from to f t =
    ap (λ r. slice (xs ++ r) from to) (sym (append-nil ys))
    ∙ slice_part xs ys [] from to f (omega (arith, length-append xs ys))

offset_step :
    (pre u : Bytes) (us : List Bytes)
    → slice (pre ++ written (u ∷ us)) (length pre + 1) (length (pre ++ written (u ∷ us)))
      ≡ ok (u ++ written us)
offset_step pre u us =
    let e : pre ++ written (u ∷ us) ≡ (pre ++ b'/' ∷ []) ++ (u ++ written us) =
      sym (append_assoc pre (b'/' ∷ []) (u ++ written us)) in
    rw e (
      slice_rest (pre ++ b'/' ∷ []) (u ++ written us) _ _
        (omega (arith, length-append pre (b'/' ∷ []))) refl)

take_nil : (k : ℕ) → take {A = Bytes} k [] ≡ []
take_nil zero = refl
take_nil (suc k) = refl

-- Behind any text, the loop finds the end of as many segments as it has rounds left.
offset_from :
    (k : ℕ) (pre u : Bytes) (us : List Bytes)
    → All (Lacks b'/') (u ∷ us)
    → segment_offset_from k (pre ++ written (u ∷ us)) (length pre)
      ≡ ok (length pre + length (written (take k (u ∷ us))))
unfolding segment_offset_from
offset_from zero pre u us h = ap (λ n. ok n) (omega arith)
offset_from (suc k) pre u [] (h, _) =
    let all_read : index_byte (u ++ []) b'/' ≡ none = rw append-nil (index_byte-none u b'/' h) in
    rw (offset_step pre u []) (
      ground (
        arith,
        all_read,
        length-append pre (written (u ∷ [])),
        ap (λ r. length (written (u ∷ r))) (take_nil k),
      ))
offset_from (suc k) pre u (x ∷ us) (h, hs) =
    let at : index_byte (u ++ written (x ∷ us)) b'/' ≡ some (length u) =
      index_byte-some u (x ++ written us) b'/' h in
    let there : pre ++ written (u ∷ (x ∷ us)) ≡ (pre ++ b'/' ∷ u) ++ written (x ∷ us) =
      sym (append_assoc pre (b'/' ∷ u) (written (x ∷ us))) in
    let start : length (pre ++ b'/' ∷ u) ≡ length pre + (length u + 1) =
      omega (arith, length-append pre (b'/' ∷ u)) in
    let ih = offset_from k (pre ++ b'/' ∷ u) x us hs in
    let ih' : segment_offset_from k (pre ++ written (u ∷ (x ∷ us))) (length pre + (length u + 1))
        ≡ ok (length pre + (length u + 1) + length (written (take k (x ∷ us)))) =
      rw (there, ← start) ih in
    rw (offset_step pre u (x ∷ us))
      (ground (arith, at, ih', length-append u (written (take k (x ∷ us)))))

-- The offset of a segment is the length of the text of the segments before it.
pub segment_offset-written :
    (k : ℕ) (us : List Bytes)
    → All (Lacks b'/') us
    → 0 < length us
    → segment_offset (written us) k ≡ ok (length (written (take k us)))
unfolding segment_offset
segment_offset-written k [] h l = absurd (omega arith)
segment_offset-written k (u ∷ us) h l = offset_from k [] u us h ∙ ap (λ n. ok n) (omega arith)
