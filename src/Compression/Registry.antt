-- ===== src/Compression/Registry.antt =====
-- The compressors by name: the first of the list with a name, when it has one.
use vanguard_go.Compression.{add_compressor, add_compressors, get_compressor, new_compressors}
use vanguard_go.Prelude.{
  Bool, Bytes, List, Option, [], arith, bytes_eq, bytes_eq_iff, if◌then◌else◌, is_empty, none, some,
  ◌∙◌, ◌||◌, ◌∷◌, ◌≡◌,
}
use vanguard_go.Prelude.Map.{Map, get, get-put}

module _ {C : Type 0} (identity : Bytes) (name_of : C → Bytes) where
  -- The first compressor of a list with a name.
  abbrev pub first_named : Bytes → List C → Option C
  first_named name [] = none
  first_named name (c ∷ list) = if bytes_eq (name_of c) name then some c else first_named name list

  -- The name is not for a compressor.
  abbrev pub unnamed : Bytes → Bool
  unnamed name = is_empty name || bytes_eq name identity

  -- What a map that already holds compressors returns for a name.
  abbrev pub held_or_first : Bytes → Option C → List C → Option C
  held_or_first name (some c) list = some c
  held_or_first name none list = if unnamed name then none else first_named name list

  add_compressor-get :
      (name : Bytes) (c : C) (list : List C) (by_name : Map C) (names : List Bytes)
      → held_or_first name (get name (add_compressor identity name_of c (by_name, names)).0) list
        ≡ held_or_first name (get name by_name) (c ∷ list)
  unfolding add_compressor
  add_compressor-get name c list by_name names =
      ground (arith, get-put (name_of c) name c by_name, bytes_eq_iff (name_of c) name)

  add_compressors-get :
      (name : Bytes) (list : List C) (by_name : Map C) (names : List Bytes)
      → get name (add_compressors identity name_of list (by_name, names)).0
        ≡ held_or_first name (get name by_name) list
  unfolding add_compressors
  add_compressors-get name [] by_name names = ground arith
  add_compressors-get name (c ∷ list) by_name names =
      let (by_name', names') = add_compressor identity name_of c (by_name, names) in
      add_compressors-get name list by_name' names' ∙ add_compressor-get name c list by_name names

  -- A name other than the blank one and "identity" gets the first compressor of the list that has
  -- it, if there is one; these two get none.
  pub get_compressor-new_compressors :
      (name : Bytes) (list : List C)
      → get_compressor identity name_of name (new_compressors identity name_of list)
        ≡ (if unnamed name then none else first_named name list)
  unfolding get_compressor new_compressors
  get_compressor-new_compressors name list = add_compressors-get name list [] []
