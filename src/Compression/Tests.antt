-- ===== src/Compression/Tests.antt =====
-- Negotiation with two compressors.
use vanguard_go.Compression.{
  accepted_fields, add_compressor, add_compressors, choose_response, close_field, fields_from,
  first_accepted, get_compressor, is_comma_or_space, negotiate, new_compressors,
  unknown_compression,
}
use vanguard_go.Compression.Negotiation.{Negotiated, negotiate-Negotiated}
use vanguard_go.Prelude.{Bytes, List, Option, [], codes, err, none, ok, refl, some, ◌∷◌, ◌≡◌, ℕ}

data Packer : Type 0 where
  gzip zstd other_gzip : Packer

abbrev packer_name : Packer → Bytes
packer_name gzip = codes "gzip"
packer_name zstd = codes "zstd"
packer_name other_gzip = codes "gzip"

abbrev packers : List Packer
packers = gzip ∷ (other_gzip ∷ (zstd ∷ []))

abbrev identity : Bytes
identity = codes "identity"

fields : accepted_fields (codes "br, zstd;q=0.5 ,") ≡ codes "br" ∷ (codes "zstd;q=0.5" ∷ [])
unfolding accepted_fields fields_from close_field is_comma_or_space
fields = refl

chosen :
    negotiate identity packer_name
      (codes "identity")
      (codes "br, zstd;q=0.5")
      (new_compressors identity packer_name packers)
    ≡ ok (none, some zstd)
unfolding negotiate new_compressors add_compressors add_compressor choose_response first_accepted
    accepted_fields fields_from close_field is_comma_or_space
chosen = refl

refused :
    negotiate identity packer_name (codes "br") [] (new_compressors identity packer_name packers)
    ≡ err (unknown_compression (codes "br") (codes "gzip, zstd"))
unfolding negotiate new_compressors add_compressors add_compressor
refused = refl

found_gzip :
    get_compressor identity packer_name
      (codes "gzip")
      (new_compressors identity packer_name packers)
    ≡ some gzip
unfolding get_compressor new_compressors add_compressors add_compressor
found_gzip = refl

negotiate-Negotiated_example :
    Negotiated identity packer_name packers (codes "identity") (codes "br, zstd;q=0.5") (
      negotiate identity packer_name
        (codes "identity")
        (codes "br, zstd;q=0.5")
        (new_compressors identity packer_name packers))
negotiate-Negotiated_example =
    negotiate-Negotiated identity packer_name packers (codes "identity") (codes "br, zstd;q=0.5")

abbrev first_error : Option ℕ → Option ℕ → Option ℕ
first_error (some e) f = some e
first_error none f = f
