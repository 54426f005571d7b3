-- ===== src/Compression.antt =====
-- compression.go: the compressors by name, the negotiation of the encodings of a request and its
-- response, and the body that is decompressed while it is read. A compressor belongs to connect, of
-- which only `Name()` is used, and so does the name "identity": both are parameters.
pub mod Registry
pub mod Negotiation
pub mod Bodies
mod Tests
use vanguard_go.Prelude.{
  Bool, Bytes, List, Option, Result, [], bytes_eq, codes, cut, err, if◌then◌else◌, is_empty,
  is_some, join, none, not, ok, some, ℕ, ◌+◌, ◌++◌, ◌&&◌, ◌==◌, ◌||◌, ◌∷◌,
}
use vanguard_go.Prelude.Map.{Map, get, put}

-- isCommaOrSpace
unfoldable pub is_comma_or_space : ℕ → Bool
is_comma_or_space r = r == b',' || r == b' '

-- The open field goes to the result unless it is empty.
unfoldable pub close_field : Bytes → List Bytes → List Bytes
close_field field fields = if is_empty field then fields else field ∷ fields

-- The fields from here on, behind the bytes of the open one.
unfoldable pub fields_from : Bytes → Bytes → List Bytes
fields_from field [] = close_field field []
fields_from field (c ∷ s) =
    let closed = close_field field (fields_from [] s) in
    let longer = fields_from (field ++ (c ∷ [])) s in if is_comma_or_space c then closed else longer

-- strings.FieldsFuncSeq(accept, isCommaOrSpace)
unfoldable pub accepted_fields : Bytes → List Bytes
accepted_fields accept = fields_from [] accept

pub record Compressors (C : Type 0) : Type 0 where
  pub by_name : Map C
  pub names : Bytes

pub data NegotiateError : Type 0 where
  unknown_compression : Bytes → Bytes → NegotiateError

module _ {C : Type 0} (identity : Bytes) (name_of : C → Bytes) where
  -- One round of the loop of `newCompressors`.
  unfoldable pub add_compressor : C → Map C × List Bytes → Map C × List Bytes
  add_compressor compressor (by_name, names) =
      let name = name_of compressor in
      if is_some (get name by_name) || is_empty name || bytes_eq name identity
      then (by_name, names)
      else (put name compressor by_name, names ++ (name ∷ []))

  unfoldable pub add_compressors : List C → Map C × List Bytes → Map C × List Bytes
  add_compressors [] acc = acc
  add_compressors (compressor ∷ list) acc = add_compressors list (add_compressor compressor acc)

  unfoldable pub new_compressors : List C → Compressors C
  new_compressors list =
      let (by_name, names) = add_compressors list ([], []) in
      record { by_name = by_name; names = join names (codes ", ") }

  -- none for a nil compressor
  unfoldable pub encoding_name : Option C → Bytes
  encoding_name none = identity
  encoding_name (some compressor) = name_of compressor

  unfoldable pub get_compressor : Bytes → Compressors C → Option C
  get_compressor name c = get name c.by_name

  -- The loop over the accepted encodings; a name ends at its ';'.
  unfoldable pub first_accepted : List Bytes → Map C → Option C
  first_accepted [] by_name = none
  first_accepted (field ∷ fields) by_name =
      let later = first_accepted fields by_name in
      elim (get (cut b';' field).0 by_name) [ some c ↦ some c | none ↦ later ]

  unfoldable pub choose_response : Option C → Bytes → Compressors C → Option C
  choose_response (some c) accept cs = some c
  choose_response none accept cs =
      if is_empty accept then none else first_accepted (accepted_fields accept) cs.by_name

  unfoldable pub negotiate :
      Bytes → Bytes → Compressors C → Result NegotiateError (Option C × Option C)
  negotiate sent accept cs =
      if not (is_empty sent) && not (bytes_eq sent identity)
      then elim (get sent cs.by_name) [
        | none ↦ err (unknown_compression sent cs.names)
        | some c ↦ ok (some c, choose_response (some c) accept cs)
      ]
      else ok (none, choose_response none accept cs)

-- `decompressedBody`: the calls of the two closers so far, and what `closeOnce` has kept.
pub record DecompressedBody (E : Type 0) : Type 0 where
  pub decompressor_closes : ℕ
  pub body_closes : ℕ
  pub close_err : Option (Option E)

module _ {E : Type 0} (join_errors : Option E → Option E → Option E) where
  -- `Close`, from what the two closers return, none for nil
  unfoldable pub close : Option E → Option E → DecompressedBody E → DecompressedBody E × Option E
  close of_decompressor of_body d = elim d.close_err [
    | some kept ↦ (d, kept)
    | none ↦
        let joined = join_errors of_decompressor of_body in
        (
          record {
            decompressor_closes = d.decompressor_closes + 1;
            body_closes = d.body_closes + 1;
            close_err = some joined;
          },
          joined,
        )
  ]

  -- Calls of `Close`, each with what the closers would return then: the body and the results.
  unfoldable pub close_all :
      List (Option E × Option E) → DecompressedBody E → DecompressedBody E × List (Option E)
  close_all [] d = (d, [])
  close_all ((of_decompressor, of_body) ∷ calls) d =
      let (d', e) = close of_decompressor of_body d in
      let (d'', es) = close_all calls d' in (d'', e ∷ es)
