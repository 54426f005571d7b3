-- ===== src/Client/Paths.antt =====
-- The seam of the base path and the path of a request.
use vanguard_go.Client.Http.{join_path, tail}
use vanguard_go.Prelude.{
  Bool-cases, Bytes, [], ap, append_assoc, arith, codes, ends_with, false, has_prefix,
  if◌then◌else◌, inl, inr, is_empty, refl, sym, true, ◌++◌, ◌==◌, ◌∙◌, ◌∷◌, ◌≡◌,
}

-- strings.TrimSuffix of a slash
abbrev pub trim_last_slash : Bytes → Bytes
trim_last_slash [] = []
trim_last_slash (c ∷ []) = if c == b'/' then [] else c ∷ []
trim_last_slash (c ∷ (d ∷ s)) = c ∷ trim_last_slash (d ∷ s)

-- strings.TrimPrefix of a slash
abbrev pub trim_first_slash : Bytes → Bytes
trim_first_slash [] = []
trim_first_slash (c ∷ s) = if c == b'/' then s else c ∷ s

trim_last_slash_kept : (s : Bytes) → ends_with s b'/' ≡ false → trim_last_slash s ≡ s
trim_last_slash_kept [] h = refl
trim_last_slash_kept (c ∷ []) h = ground (arith, h)
trim_last_slash_kept (c ∷ (d ∷ s)) h = ap (λ r. c ∷ r) (trim_last_slash_kept (d ∷ s) h)

trim_last_slash-append :
    (s : Bytes) → ends_with s b'/' ≡ true → trim_last_slash s ++ (b'/' ∷ []) ≡ s
trim_last_slash-append [] h = ground (arith, h)
trim_last_slash-append (c ∷ []) h = ground (arith, h)
trim_last_slash-append (c ∷ (d ∷ s)) h = ap (λ r. c ∷ r) (trim_last_slash-append (d ∷ s) h)

trim_last_slash-seam :
    (s t : Bytes) → ends_with s b'/' ≡ true → trim_last_slash s ++ (b'/' ∷ t) ≡ s ++ t
trim_last_slash-seam s t h =
    sym (append_assoc (trim_last_slash s) (b'/' ∷ []) t)
    ∙ ap (λ r. r ++ t) (trim_last_slash-append s h)

first_slash : (s : Bytes) → has_prefix s (codes "/") ≡ true → b'/' ∷ trim_first_slash s ≡ s
first_slash [] h = ground (arith, h)
first_slash (c ∷ s) h = ground (arith, h)

first_slash_tail : (s : Bytes) → has_prefix s (codes "/") ≡ true → trim_first_slash s ≡ tail s
first_slash_tail [] h = refl
first_slash_tail (c ∷ s) h = ground (arith, h)

no_first_slash : (s : Bytes) → has_prefix s (codes "/") ≡ false → trim_first_slash s ≡ s
no_first_slash [] h = refl
no_first_slash (c ∷ s) h = ground (arith, h)

-- A path joined to a base that is not empty is the base without a slash at its end, one slash, and
-- the path without a slash at its start.
pub join_path_lem :
    (base suffix : Bytes)
    → is_empty base ≡ false
    → join_path base suffix ≡ trim_last_slash base ++ (b'/' ∷ trim_first_slash suffix)
unfolding join_path
join_path_lem base suffix h = elim (Bool-cases (ends_with base b'/')) [
  | inl b ↦ elim (Bool-cases (has_prefix suffix (codes "/"))) [
    | inl s ↦
        rw (h, b, s, first_slash_tail suffix s) (sym (trim_last_slash-seam base (tail suffix) b))
    | inr s ↦ rw (h, b, s, no_first_slash suffix s) (sym (trim_last_slash-seam base suffix b))
  ]
  | inr b ↦ elim (Bool-cases (has_prefix suffix (codes "/"))) [
    | inl s ↦ rw (h, b, s, first_slash suffix s, trim_last_slash_kept base b) refl
    | inr s ↦ rw (h, b, s, no_first_slash suffix s, trim_last_slash_kept base b) refl
  ]
]
