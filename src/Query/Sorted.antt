-- ===== src/Query/Sorted.antt =====
-- The order in which url.Values.Encode writes pairs: by key, and as added within a key.
use vanguard_go.Prelude.{
  Bool-cases, Bytes, List, [], arith, bytes_eq, bytes_eq_iff, bytes_lt, false, if◌then◌else◌, inl,
  inr, refl, sym, true, ◌∙◌, ◌∷◌, ◌≡◌,
}
use vanguard_go.Prelude.Branches.{if_holds}
use vanguard_go.Query.{insert_pair, sort_pairs}

-- The values of a key, in their order.
abbrev pub values_of : Bytes → List (Bytes × Bytes) → List Bytes
values_of key [] = []
values_of key ((k, value) ∷ pairs) =
    let rest = values_of key pairs in if bytes_eq k key then value ∷ rest else rest

-- The first key is not smaller than this one.
abbrev pub Precede : Bytes → List (Bytes × Bytes) → Type 0
Precede key [] = Unit
Precede key (pair ∷ pairs) = bytes_lt pair.0 key ≡ false

-- No key is smaller than the one before it.
abbrev pub IsOrdered : List (Bytes × Bytes) → Type 0
IsOrdered [] = Unit
IsOrdered (pair ∷ pairs) = Precede pair.0 pairs × IsOrdered pairs

bytes_lt_irreflexive : (s : Bytes) → bytes_lt s s ≡ false
bytes_lt_irreflexive [] = refl
bytes_lt_irreflexive (c ∷ s) = ground (arith, bytes_lt_irreflexive s)

bytes_lt_asymmetric : (s t : Bytes) → bytes_lt s t ≡ true → bytes_lt t s ≡ false
bytes_lt_asymmetric [] [] h = refl
bytes_lt_asymmetric [] (d ∷ t) h = refl
bytes_lt_asymmetric (c ∷ s) [] h = absurd (ground (arith, h))
bytes_lt_asymmetric (c ∷ s) (d ∷ t) h = ground (arith, h, bytes_lt_asymmetric s t)

insert_pair-Precede :
    (key : Bytes) (pair : Bytes × Bytes) (pairs : List (Bytes × Bytes))
    → bytes_lt pair.0 key ≡ false
    → Precede key pairs
    → Precede key (insert_pair pair pairs)
insert_pair-Precede key pair [] h p = h
insert_pair-Precede key pair (other ∷ pairs) h p =
    if_holds (Precede key) (bytes_lt other.0 pair.0) (λ _. p) (λ _. h)

insert_pair-IsOrdered :
    (pair : Bytes × Bytes) (pairs : List (Bytes × Bytes))
    → IsOrdered pairs
    → IsOrdered (insert_pair pair pairs)
insert_pair-IsOrdered pair [] h = (tt, tt)
insert_pair-IsOrdered pair (other ∷ pairs) (p, h) =
    if_holds IsOrdered (bytes_lt other.0 pair.0)
      (λ less. (
        insert_pair-Precede other.0 pair pairs (bytes_lt_asymmetric other.0 pair.0 less) p,
        insert_pair-IsOrdered pair pairs h,
      ))
      (λ not_less. (not_less, (p, h)))

pub sort_pairs-IsOrdered : (pairs : List (Bytes × Bytes)) → IsOrdered (sort_pairs pairs)
unfolding sort_pairs
sort_pairs-IsOrdered [] = tt
sort_pairs-IsOrdered (pair ∷ pairs) =
    insert_pair-IsOrdered pair (sort_pairs pairs) (sort_pairs-IsOrdered pairs)

-- A smaller key is another key.
different : (s t key : Bytes) → bytes_lt s t ≡ true → bytes_eq s key ≡ true → bytes_eq t key ≡ false
different s t key less same = elim (Bool-cases (bytes_eq t key)) [
  | inr other ↦ other
  | inl also ↦
      let e : s ≡ t = (bytes_eq_iff s key).0 same ∙ sym ((bytes_eq_iff t key).0 also) in
      let l : bytes_lt t t ≡ true = rw e at less in
      absurd (ground (arith, l, bytes_lt_irreflexive t))
]

values_of-insert_pair :
    (key k value : Bytes) (pairs : List (Bytes × Bytes))
    → values_of key (insert_pair (k, value) pairs) ≡ values_of key ((k, value) ∷ pairs)
values_of-insert_pair key k value [] = refl
values_of-insert_pair key k value ((j, other) ∷ pairs) =
    if_holds (λ x. values_of key x ≡ values_of key ((k, value) ∷ ((j, other) ∷ pairs)))
      (bytes_lt j k)
      (λ less. ground (arith, different j k key less, values_of-insert_pair key k value pairs))
      (λ _. refl)

pub values_of-sort_pairs :
    (key : Bytes) (pairs : List (Bytes × Bytes))
    → values_of key (sort_pairs pairs) ≡ values_of key pairs
unfolding sort_pairs
values_of-sort_pairs key [] = refl
values_of-sort_pairs key ((k, value) ∷ pairs) =
    values_of-insert_pair key k value (sort_pairs pairs)
    ∙ ground (arith, values_of-sort_pairs key pairs)
