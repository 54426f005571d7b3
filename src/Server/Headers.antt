-- ===== src/Server/Headers.antt =====
-- What the copies of headers leave under a key.
use vanguard_go.Prelude.{
  Bool-cases, Bytes, List, Option, [], ap, arith, bytes_eq, bytes_eq_iff, false, if◌then◌else◌, inl,
  inr, refl, some, sym, true, ◌∙◌, ◌∷◌, ◌≡◌,
}
use vanguard_go.Prelude.Map.{get, get-put, put}
use vanguard_go.Server.{
  Header, copy_except, copy_header, hop_by_hop_headers, is_among, protocol_headers,
  set_metadata_headers,
}

-- The values under a key of the headers that are copied, of the last entry with it, and if there is
-- none those of the destination.
abbrev pub overlaid : Bytes → Header → Option (List Bytes) → Option (List Bytes)
overlaid key [] below = below
overlaid key ((k, vals) ∷ src) below =
    overlaid key src (if bytes_eq k key then some vals else below)

put-kept :
    (skipped : List Bytes) (key k : Bytes) (vals : List Bytes) (src dst : Header)
    → is_among k skipped ≡ false
    → (if is_among key skipped
        then get key (put k vals dst)
        else overlaid key src (get key (put k vals dst)))
      ≡ (if is_among key skipped
          then get key dst
          else overlaid key src (if bytes_eq k key then some vals else get key dst))
put-kept skipped key k vals src dst keep =
    let found = get-put k key vals dst in
    elim (Bool-cases (is_among key skipped)) [
      | inr e ↦ rw (e, found) refl
      | inl e ↦ elim (Bool-cases (bytes_eq k key)) [
        | inr other ↦ rw (e, found, other) refl
        | inl same ↦
            let d = ap (λ x. is_among x skipped) ((bytes_eq_iff k key).0 same) in
            absurd (ground (arith, d, e, keep))
      ]
    ]

copy_except-get :
    (skipped : List Bytes) (key : Bytes) (src dst : Header)
    → get key (copy_except skipped src dst)
      ≡ (if is_among key skipped then get key dst else overlaid key src (get key dst))
unfolding copy_except
copy_except-get skipped key [] dst = ground arith
copy_except-get skipped key ((k, vals) ∷ src) dst =
    let below = copy_except-get skipped key src dst in
    let above = copy_except-get skipped key src (put k vals dst) in
    let found = get-put k key vals dst in
    elim (Bool-cases (is_among k skipped)) [
      | inr keep ↦ rw (keep, copy_except) (above ∙ put-kept skipped key k vals src dst keep)
      | inl skip ↦ elim (Bool-cases (bytes_eq k key)) [
        | inr other ↦ rw (skip, other, copy_except) below
        | inl same ↦
            let among : is_among key skipped ≡ true =
              sym (ap (λ x. is_among x skipped) ((bytes_eq_iff k key).0 same)) ∙ skip in
            rw (skip, among, copy_except) (below ∙ rw among refl)
      ]
    ]

-- What is under a key behind `setMetadataHeaders`: for a header of the protocols what was there,
-- for any other the metadata's values, of its last entry with the key, or else what was there.
pub set_metadata_headers-get :
    (key : Bytes) (src dst : Header)
    → get key (set_metadata_headers dst src)
      ≡ (if is_among key protocol_headers then get key dst else overlaid key src (get key dst))
unfolding set_metadata_headers
set_metadata_headers-get key src dst = copy_except-get protocol_headers key src dst

-- What is under a key behind `copyHeader`: for a hop-by-hop header what was there, for any other
-- the copied values, of the last entry with the key, or else what was there.
pub copy_header-get :
    (key : Bytes) (src dst : Header)
    → get key (copy_header dst src)
      ≡ (if is_among key hop_by_hop_headers then get key dst else overlaid key src (get key dst))
unfolding copy_header
copy_header-get key src dst = copy_except-get hop_by_hop_headers key src dst
