-- ===== src/Route/Trie/Paths.antt =====
-- `findTarget` on the text of a path, against the search over its segments.
use mathlib.Core.Path.{fun_ext}
use vanguard_go.Prelude.{
  Bytes, List, [], ap, arith, cut_at, length, refl, split, suc, sym, zero, ℕ, ◌∙◌, ◌∷◌, ◌≡◌, ◌≤◌,
}
use vanguard_go.Route.Trie.{Trie, find_from, find_segment, find_target, rest_of}
use vanguard_go.Route.Trie.Find.{find_segments}

-- The segments of a path, each of them behind a '/'.
abbrev pub segments_of : Bytes → List Bytes
segments_of [] = []
segments_of (_ ∷ path) = split path b'/'

-- strings.IndexByte finds the end of the first part of strings.Split.
split-cut_at :
    (s : Bytes) → split s b'/' ≡ (cut_at b'/' s).0 ∷ segments_of (rest_of (cut_at b'/' s).1)
unfolding rest_of
split-cut_at [] = refl
split-cut_at (c ∷ s) = ground (arith, split-cut_at s)

cut_at-length : (s : Bytes) → length (rest_of (cut_at b'/' s).1) ≤ length s
unfolding rest_of
cut_at-length [] = omega arith
cut_at-length (c ∷ s) = ground (arith, cut_at-length s)

module _ {A : Type 0} where
  find_from-find_segments :
      (fuel : ℕ) (path v m : Bytes) (t : Trie A)
      → length path ≤ fuel
      → find_from fuel path v m t ≡ find_segments (segments_of path) v m t
  unfolding find_from find_segments
  find_from-find_segments fuel [] v m t l = refl
  find_from-find_segments zero (c ∷ path) v m t l = absurd (omega arith)
  find_from-find_segments (suc fuel) (c ∷ path) v m t l =
      let rest = rest_of (cut_at b'/' path).1 in
      let shorter : length rest ≤ fuel = omega (arith, cut_at-length path) in
      let ih = λ (c : Trie A). find_from-find_segments fuel rest v m c shorter in
      ap (λ f. find_segment v m (cut_at b'/' path).0 f t) (fun_ext ih)
      ∙ ap (λ ss. find_segments ss v m t) (sym (split-cut_at path))

  -- `findTarget` on the text of a path searches the segments of the path, and its fuel suffices.
  pub find_target-find_segments :
      (path v m : Bytes) (t : Trie A)
      → find_target path v m t ≡ find_segments (segments_of path) v m t
  unfolding find_target
  find_target-find_segments path v m t =
      find_from-find_segments (length path) path v m t (omega arith)
