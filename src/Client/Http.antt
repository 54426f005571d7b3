-- ===== src/Client/Http.antt =====
-- stream_client.go: the request that clientStream builds and the response that it prepares.
use vanguard_go.Client.{
  Calling, ClientError, Request, RequestBody, Response, Rule, Url, coded, eof, plain,
  nil_dereference,
}
use vanguard_go.Compression.{get_compressor}
use vanguard_go.Prelude.{
  Bool, Bytes, Option, Result, [], bytes_eq, codes, ends_with, err, false, has_prefix,
  if◌then◌else◌, is_empty, none, not, ok, some, true, ℕ, ◌&&◌, ◌++◌, ◌||◌, ◌>>=◌, ◌∷◌,
}
use vanguard_go.Prelude.Map.{put}
use vanguard_go.Server.{Header, first_value, set_metadata_headers}
use vanguard_go.Status.{new_error}

-- The text behind its first byte.
abbrev pub tail : Bytes → Bytes
tail [] = []
tail (c ∷ s) = s

unfoldable pub join_path : Bytes → Bytes → Bytes
join_path base suffix =
    let base_slash = ends_with base b'/' in
    let suffix_slash = has_prefix suffix (codes "/") in
    if is_empty base
    then suffix
    else if base_slash && suffix_slash
    then base ++ tail suffix
    else if not base_slash && not suffix_slash
    then base ++ (b'/' ∷ suffix)
    else base ++ suffix

-- Header.Del
abbrev pub delete : Bytes → Header → Header
delete key [] = []
delete key ((k, vals) ∷ header) =
    let rest = delete key header in if bytes_eq k key then rest else (k, vals) ∷ rest

abbrev pub set_some : Bytes → Option Bytes → Header → Header
set_some key none header = header
set_some key (some value) header = put key (value ∷ []) header

abbrev pub coded_with : {E : Type 0} → ℕ → Bytes → E → ClientError E
coded_with code text e = coded (record (new_error code text) { cause = some e })

module _ {M C E : Type 0} (call : Calling M C E) where
  unfoldable pub join_query : Bytes → Bytes → Bytes
  join_query raw_query query =
      if is_empty query
      then raw_query
      else if is_empty raw_query
      then query
      else raw_query ++ (b'&' ∷ query)

  unfoldable pub request_url : M → Result E Url
  unfolding join_path join_query
  request_url msg = do
    (path, query) ← call.encode_path_values msg
    unescaped ← call.path_unescape (join_path call.base_path path)
    ok (record {
      raw_path = join_path call.base_path path;
      path = unescaped;
      raw_query = join_query call.base_url.raw_query query;
    })

  -- The headers of the metadata, without a deadline.
  unfoldable pub metadata_headers : Header
  unfolding set_metadata_headers
  metadata_headers = elim call.metadata [
    | none ↦ []
    | some metadata ↦ delete (codes "X-Server-Timeout") (set_metadata_headers [] metadata)
  ]

  abbrev pub nonempty : Bytes → Option Bytes
  nonempty s = if is_empty s then none else some s

  -- The Content-Encoding of a rule with a body.
  unfoldable pub send_encoding : Rule → Option Bytes
  send_encoding rule = elim call.send_compressor [
    | none ↦ none
    | some c ↦ if rule.has_request_fields then some (call.name_of c) else none
  ]

  unfoldable pub accept_encoding : Bytes
  accept_encoding =
      if is_empty call.compressors.names then call.identity else call.compressors.names

  unfoldable pub request_header : Rule → Bytes → Header
  unfolding metadata_headers send_encoding accept_encoding
  request_header rule content_type =
      let timed = set_some (codes "X-Server-Timeout") call.timeout metadata_headers in
      let typed = set_some (codes "Content-Type") (nonempty content_type) timed in
      let encoded = set_some (codes "Content-Encoding") (send_encoding rule) typed in
      put (codes "Accept") ((codes "application/" ++ call.codec_name) ∷ [])
        (put (codes "Accept-Encoding") (accept_encoding ∷ []) encoded)

  unfoldable pub new_request : Rule → Url → Bytes → RequestBody → Result (ClientError E) Request
  unfolding request_header new_error
  new_request rule url content_type body = elim call.build_error [
    | some e ↦ err (coded_with 13 (codes "build request: " ++ call.chain.text e) e)
    | none ↦ ok (record {
      http_method = rule.http_method;
      url = url;
      header = request_header rule content_type;
      body = body;
    })
  ]

  -- The body undone by a compressor, or the error of `finishResponse`.
  unfoldable pub decode_response : Option E → Response C → Result (ClientError E) (Response C)
  unfolding first_value get_compressor new_error
  decode_response decompress_error resp =
      let encoding = first_value (codes "Content-Encoding") resp.header in
      if is_empty encoding || bytes_eq encoding call.identity
      then ok (record resp { decoder = none })
      else elim (get_compressor call.identity call.name_of encoding call.compressors) [
        | none ↦ err (coded (new_error 13 (call.unknown_encoding encoding)))
        | some compressor ↦ elim decompress_error [
          | some e ↦ err (coded_with 13 (codes "decompress response: " ++ call.chain.text e) e)
          | none ↦ ok (record resp { decoder = some compressor })
        ]
      ]

  unfoldable pub read_error : E → ClientError E
  unfolding new_error
  read_error e =
      if call.is_too_large e
      then coded (new_error 8 call.limit_text)
      else coded_with 14 (codes "read response: " ++ call.chain.text e) e

  unfoldable pub is_eof_error : ClientError E → Bool
  is_eof_error eof = true
  is_eof_error (plain text) = false
  is_eof_error (coded e) = elim e.cause [ none ↦ false | some cause ↦ call.is_eof cause ]
  is_eof_error nil_dereference = false
