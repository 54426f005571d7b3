-- ===== src/Status/Replies.antt =====
-- The reply to an error, and the error that is made of it.
use vanguard_go.Prelude.{
  All, Bytes, Lacks, List, Result, [], arith, codes, false, inl, inr, map, none, refl, some, true,
  ◌%◌, ◌<◌, ◌==◌, ◌^◌, ◌∷◌, ◌≡◌, ◌≢◌, ℕ,
}
use vanguard_go.Prelude.Cuts.{cut_last_at}
use vanguard_go.Prelude.Map.{Map}
use vanguard_go.Status.{
  Any, Detail, ErrorChain, StatusCodec, any_of_detail, as_connect_error, detail_of_any,
  grpc_status_from_error, http_error_from_response, http_status_code_from_rpc, http_write_error,
  http_write_status, type_name_from_url,
}
use vanguard_go.Status.Codes.{http_status_code_from_rpc_range}

detail_of_any-any_of_detail :
    (d : Detail) → Lacks b'/' d.type_name → detail_of_any (any_of_detail d) ≡ d
unfolding detail_of_any any_of_detail type_name_from_url
detail_of_any-any_of_detail d plain =
    rw
      (
        cut_last_at b'/' (codes "type.googleapis.com") d.type_name plain,
        detail_of_any,
        type_name_from_url,
      )
      refl

details_back :
    (ds : List Detail)
    → All (λ d. Lacks b'/' d.type_name) ds
    → map detail_of_any (map any_of_detail ds) ≡ ds
details_back [] h = refl
details_back (d ∷ ds) (h, hs) = rw (detail_of_any-any_of_detail d h, details_back ds hs) refl

mod_small : (n : ℕ) → n < 2 ^ 32 → n % 2 ^ 32 % 2 ^ 32 ≡ n
mod_small n h = omega arith

module _ {E : Type 0} (chain : ErrorChain E) (codec : StatusCodec)
    (new_any : Bytes → Bytes → Result Bytes Any) (status_text : ℕ → Bytes) where
  -- The error that a client makes of the reply to an error of the handler, whose code is none of
  -- OK, fits in 32 bits and whose details have no '/' in their types, has the code, the message and
  -- the details that the handler's error is reported with, and is a peer's; if the codec reads back
  -- the status that it has written.
  pub http_error_from_response-http_write_error :
      (header : Map (List Bytes)) (content_type : Bytes) (e : E)
      → (as_connect_error chain e).code ≢ 0
      → (as_connect_error chain e).code < 2 ^ 32
      → All (λ d. Lacks b'/' d.type_name) (as_connect_error chain e).details
      → codec.unmarshal_read
          (codec.marshal_write (grpc_status_from_error (as_connect_error chain e)))
        ≡ (grpc_status_from_error (as_connect_error chain e), true)
      → http_error_from_response new_any status_text codec
          (http_write_error chain codec header e).status_code
          content_type
          (http_write_error chain codec header e).body
        ≡ some (record (as_connect_error chain e) { is_remote = true; cause = none })
  unfolding http_write_error http_write_status http_error_from_response
  http_error_from_response-http_write_error header content_type e coded small plain reads =
      let cerr = as_connect_error chain e in
      let failed : (http_status_code_from_rpc cerr.code == 200) ≡ false =
        elim (http_status_code_from_rpc_range cerr.code) [
          | inl (ok_code, _) ↦ absurd (coded ok_code)
          | inr (_, low, high) ↦ ground (arith, low)
        ] in
      rw (reads, failed, http_error_from_response)
        (rw (mod_small cerr.code small, details_back cerr.details plain) refl)
