-- ===== src/Status/Codes.antt =====
-- RPC codes and HTTP status codes.
use vanguard_go.Prelude.{
  Bool, Bool-cases, List, [], arith, if◌then◌else◌, inl, inr, leb, ltb, length, none, refl, true,
  zero, suc, ℕ, ◌&&◌, ◌<◌, ◌==◌, ◌||◌, ◌⊎◌, ◌↔◌, ◌≡◌, ◌≢◌, ◌≤◌, ◌∷◌, not,
}
use vanguard_go.Prelude.Table.{table_holds, table_holds_at}
use vanguard_go.Status.{
  get_elem?, http_status_code_from_rpc, http_status_code_to_rpc, http_status_codes,
}

get_elem?-past : (xs : List ℕ) (i : ℕ) → length xs ≤ i → get_elem? xs i ≡ none
get_elem?-past [] i h = refl
get_elem?-past (x ∷ xs) zero h = absurd (omega arith)
get_elem?-past (x ∷ xs) (suc i) h = get_elem?-past xs i (omega arith)

-- A code is one of 0 to 16, or its HTTP status is 500.
code-cases : (code : ℕ) → (code < 17) ⊎ ((17 ≤ code) × (http_status_code_from_rpc code ≡ 500))
unfolding http_status_code_from_rpc
code-cases code = elim (Bool-cases (ltb code 17)) [
  | inl below ↦ inl (ground (arith, below))
  | inr above ↦
      let past : 17 ≤ code = ground (arith, above) in
      inr (past, rw (get_elem?-past http_status_codes code past, http_status_code_from_rpc) refl)
]

row_in_range : ℕ → Bool
row_in_range code =
    let status = http_status_code_from_rpc code in
    if code == 0 then status == 200 else leb 400 status && ltb status 600

rows_in_range : table_holds row_in_range 17 ≡ true
unfolding table_holds row_in_range http_status_code_from_rpc
rows_in_range = refl

-- The HTTP status of code 0 is 200; that of any other code is an error's, from 400 to 599.
pub http_status_code_from_rpc_range :
    (code : ℕ)
    → ((code ≡ 0) × (http_status_code_from_rpc code ≡ 200))
      ⊎ ((code ≢ 0)
          × (400 ≤ http_status_code_from_rpc code)
          × (http_status_code_from_rpc code < 600))
unfolding row_in_range
http_status_code_from_rpc_range zero = inl (refl, unfold http_status_code_from_rpc in refl)
http_status_code_from_rpc_range (suc code) = elim (code-cases (suc code)) [
  | inl below ↦
      let status = http_status_code_from_rpc (suc code) in
      let row = table_holds_at row_in_range 17 (suc code) below rows_in_range in
      let bounds : (leb 400 status && ltb status 600) ≡ true = ground (arith, row) in
      inr ((λ d. omega arith), ground (arith, bounds), ground (arith, bounds))
  | inr (past, e) ↦ inr ((λ d. omega arith), omega arith, omega arith)
]

-- The codes that their HTTP status gives back.
abbrev pub survives : ℕ → Bool
survives code = code == 0 || code == 2 || code == 7 || code == 14 || code == 16

row_survives : ℕ → Bool
row_survives code =
    let back = http_status_code_to_rpc (http_status_code_from_rpc code) == code in
    (back && survives code) || (not back && not (survives code))

rows_survive : table_holds row_survives 17 ≡ true
unfolding table_holds row_survives http_status_code_from_rpc http_status_code_to_rpc
rows_survive = refl

-- A client that sees only the HTTP status of a code recovers the code exactly when it is OK,
-- Unknown, PermissionDenied, Unavailable or Unauthenticated.
pub http_status_code_to-from_rpc_iff :
    (code : ℕ)
    → (http_status_code_to_rpc (http_status_code_from_rpc code) ≡ code) ↔ (survives code ≡ true)
http_status_code_to-from_rpc_iff code = elim (code-cases code) [
  | inl below ↦
      let row = table_holds_at row_survives 17 code below rows_survive in
      (
        unfold row_survives in (λ h. ground (arith, row, h)),
        unfold row_survives in (λ h. ground (arith, row, h)),
      )
  | inr (past, e) ↦ (
    λ h. absurd (unfold http_status_code_to_rpc in ground (arith, past, e, h)),
    λ h. absurd (ground (arith, past, h)),
  )
]
