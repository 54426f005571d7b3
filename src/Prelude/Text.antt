-- ===== src/Prelude/Text.antt =====
-- Go strings as lists of bytes, with what the source uses of the package strings.
use Prim.Native.Nat.{ℕ}
use Prim.Native.Char.{code}
use Prim.Native.String.{String}
use mathlib.Core.Path.{◌≡◌, refl}
use mathlib.Core.Logic.{◌↔◌, ◌≢◌}
use mathlib.Core.Bool.{Bool, true, false, ◌&&◌, ◌||◌}
use mathlib.Core.List.{List, [], ◌∷◌, ◌++◌}
use mathlib.Core.Option.{Option, none, some}
use native.Mathlib.Omega.{arith}
use vanguard_go.Prelude.Tests.{◌==◌, if◌then◌else◌, ltb}
use vanguard_go.Prelude.Lists.{All}

abbrev pub Bytes : Type 0
Bytes = List ℕ

-- The code points of a literal; these are its bytes when the text is ASCII.
abbrev pub codes : String → Bytes
codes String.[] = []
codes (String.◌∷◌ c s) = code c ∷ codes s

abbrev pub bytes_eq : Bytes → Bytes → Bool
bytes_eq [] [] = true
bytes_eq [] (y ∷ ys) = false
bytes_eq (x ∷ xs) [] = false
bytes_eq (x ∷ xs) (y ∷ ys) = x == y && bytes_eq xs ys

-- The order of strings.
abbrev pub bytes_lt : Bytes → Bytes → Bool
bytes_lt xs [] = false
bytes_lt [] (y ∷ ys) = true
bytes_lt (x ∷ xs) (y ∷ ys) = ltb x y || (x == y && bytes_lt xs ys)

pub bytes_eq→eq : (xs ys : Bytes) → bytes_eq xs ys ≡ true → xs ≡ ys
bytes_eq→eq [] [] h = refl
bytes_eq→eq [] (y ∷ ys) h = ground arith
bytes_eq→eq (x ∷ xs) [] h = ground arith
bytes_eq→eq (x ∷ xs) (y ∷ ys) h = ground (arith, bytes_eq→eq xs ys)

pub bytes_eq_self : (xs : Bytes) → bytes_eq xs xs ≡ true
bytes_eq_self [] = refl
bytes_eq_self (x ∷ xs) = ground (arith, bytes_eq_self xs)

pub bytes_eq_iff : (xs ys : Bytes) → (bytes_eq xs ys ≡ true) ↔ (xs ≡ ys)
bytes_eq_iff xs ys = (bytes_eq→eq xs ys, λ e. rw e (bytes_eq_self ys))

abbrev pub Lacks : ℕ → Bytes → Type 0
Lacks b = All (λ c. c ≢ b)

-- strings.HasPrefix
abbrev pub has_prefix : Bytes → Bytes → Bool
has_prefix s [] = true
has_prefix [] (p ∷ ps) = false
has_prefix (c ∷ s) (p ∷ ps) = c == p && has_prefix s ps

-- strings.Contains of a single byte
abbrev pub contains_byte : Bytes → ℕ → Bool
contains_byte [] b = false
contains_byte (c ∷ s) b = if c == b then true else contains_byte s b

-- strings.HasSuffix of a single byte
abbrev pub ends_with : Bytes → ℕ → Bool
ends_with [] b = false
ends_with (c ∷ []) b = c == b
ends_with (c ∷ (d ∷ s)) b = ends_with (d ∷ s) b

-- The text before the first `b`, and the text from that `b` on if there is one: the two parts of
-- `s` at strings.IndexByte(s, b).
abbrev pub cut_at : ℕ → Bytes → Bytes × Option Bytes
cut_at b [] = ([], none)
cut_at b (c ∷ s) =
    let (front, back) = cut_at b s in if c == b then ([], some (c ∷ s)) else (c ∷ front, back)

-- strings.Cut at a byte, without its third result: the text before the first `b` and the text
-- behind it, or all of it and "" if there is none.
abbrev pub cut : ℕ → Bytes → Bytes × Bytes
cut b [] = ([], [])
cut b (c ∷ s) = let (front, back) = cut b s in if c == b then ([], s) else (c ∷ front, back)

-- The parts of `s` around the last `b`, at strings.LastIndexByte(s, b): what stands before it
-- and what follows it, or none if there is no `b`.
abbrev pub cut_last : ℕ → Bytes → Option (Bytes × Bytes)
cut_last b [] = none
cut_last b (c ∷ s) = elim (cut_last b s) [
  | some (front, back) ↦ some (c ∷ front, back)
  | none ↦ if c == b then some ([], s) else none
]

-- strings.Split(s, b), for a separator of one byte.
abbrev pub cons_first : ℕ → List Bytes → List Bytes
cons_first c [] = (c ∷ []) ∷ []
cons_first c (p ∷ ps) = (c ∷ p) ∷ ps

abbrev pub split : Bytes → ℕ → List Bytes
split [] b = [] ∷ []
split (c ∷ s) b = let rest = split s b in if c == b then [] ∷ rest else cons_first c rest

-- strings.Join
abbrev pub join : List Bytes → Bytes → Bytes
join [] sep = []
join (p ∷ []) sep = p
join (p ∷ (q ∷ ps)) sep = p ++ (sep ++ join (q ∷ ps) sep)

-- s == ""
abbrev pub is_empty : Bytes → Bool
is_empty [] = true
is_empty (_ ∷ _) = false
