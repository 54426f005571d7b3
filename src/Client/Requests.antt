-- ===== src/Client/Requests.antt =====
-- The headers of a request, and the metadata that cannot set them.
use vanguard_go.Client.{Calling, Rule}
use vanguard_go.Client.Http.{
  accept_encoding, delete, metadata_headers, nonempty, request_header, send_encoding, set_some,
}
use vanguard_go.Prelude.{
  Bool-cases, Bytes, List, Option, [], arith, inl, inr, is_empty, ◌≢◌, bytes_eq, bytes_eq_iff,
  codes, false, none, refl, some, true, ◌++◌, ◌∙◌, ◌∷◌, ◌≡◌,
}
use vanguard_go.Prelude.Branches.{if_holds, option_holds}
use vanguard_go.Prelude.Map.{get, get-put, put}
use vanguard_go.Server.{Header, is_among, protocol_headers, set_metadata_headers}
use vanguard_go.Server.Headers.{set_metadata_headers-get}

-- The values of a header with one value, none without it.
abbrev pub one_value : Option Bytes → Option (List Bytes)
one_value none = none
one_value (some value) = some (value ∷ [])

delete-get : (key : Bytes) (header : Header) → get key (delete key header) ≡ none
delete-get key [] = refl
delete-get key ((k, vals) ∷ header) = ground (arith, delete-get key header)

delete-get_other :
    (key other : Bytes) (header : Header)
    → bytes_eq key other ≡ false
    → get other (delete key header) ≡ get other header
delete-get_other key other [] h = refl
delete-get_other key other ((k, vals) ∷ header) h = ground (
  arith,
  h,
  delete-get_other key other header h,
  bytes_eq_iff k key,
  bytes_eq_iff k other,
  bytes_eq_iff key other,
)

set_some-get :
    (key : Bytes) (value : Option Bytes) (header : Header)
    → get key header ≡ none
    → get key (set_some key value header) ≡ one_value value
set_some-get key none header h = h
set_some-get key (some value) header h =
    get-put key key (value ∷ []) header ∙ ground (arith, bytes_eq_iff key key)

set_some-get_other :
    (key other : Bytes) (value : Option Bytes) (header : Header)
    → bytes_eq key other ≡ false
    → get other (set_some key value header) ≡ get other header
set_some-get_other key other none header h = refl
set_some-get_other key other (some value) header h =
    get-put key other (value ∷ []) header ∙ ground (arith, h)

protocol_absent :
    (key : Bytes) (metadata : Header)
    → is_among key protocol_headers ≡ true
    → get key (set_metadata_headers [] metadata) ≡ none
protocol_absent key metadata protocol =
    set_metadata_headers-get key metadata []
    ∙ if_holds (λ (x : Option (List Bytes)). x ≡ none) (is_among key protocol_headers) (λ _. refl)
        (λ n. absurd (ground (arith, n, protocol)))

is_empty-nil : (s : Bytes) → is_empty s ≡ true → s ≡ []
is_empty-nil [] h = refl
is_empty-nil (c ∷ s) h = absurd (ground (arith, h))

module _ {M C E : Type 0} (call : Calling M C E) where
  timeout-metadata_headers : get (codes "X-Server-Timeout") (metadata_headers call) ≡ none
  unfolding metadata_headers
  timeout-metadata_headers =
      option_holds (λ (h : Header). get (codes "X-Server-Timeout") h ≡ none) call.metadata
        (λ _. refl)
        (λ metadata _. delete-get (codes "X-Server-Timeout") (set_metadata_headers [] metadata))

  protocol-metadata_headers :
      (key : Bytes)
      → bytes_eq (codes "X-Server-Timeout") key ≡ false
      → is_among key protocol_headers ≡ true
      → get key (metadata_headers call) ≡ none
  unfolding metadata_headers
  protocol-metadata_headers key other protocol =
      option_holds (λ (h : Header). get key h ≡ none) call.metadata (λ _. refl)
        (λ metadata _.
          delete-get_other (codes "X-Server-Timeout") key (set_metadata_headers [] metadata) other
          ∙ protocol_absent key metadata protocol)

  nonempty_value : (s : Bytes) → s ≢ [] → one_value (nonempty call s) ≡ some (s ∷ [])
  nonempty_value [] h = absurd (h refl)
  nonempty_value (c ∷ s) h = refl

  untyped_value : (s : Bytes) → s ≡ [] → one_value (nonempty call s) ≡ none
  untyped_value s h = rw h refl

  no_body :
      (rule : Rule) → rule.has_request_fields ≡ false → one_value (send_encoding call rule) ≡ none
  unfolding send_encoding
  no_body rule b = ground (arith, b)

  names_sent :
      call.compressors.names ≢ []
      → ◌≡◌ {A = Option (List Bytes)}
          (some (accept_encoding call ∷ []))
          (some (call.compressors.names ∷ []))
  unfolding accept_encoding
  names_sent h = elim (Bool-cases (is_empty call.compressors.names)) [
    | inl e ↦ absurd (h (is_empty-nil call.compressors.names e))
    | inr e ↦ ground (arith, e)
  ]

  -- The headers that the transport sets.
  pub record Derived (rule : Rule) (body_type : Bytes) (header : Header) : Type 0 where
    pub timeout : get (codes "X-Server-Timeout") header ≡ one_value call.timeout
    pub untyped : body_type ≡ [] → get (codes "Content-Type") header ≡ none
    pub typed : body_type ≢ [] → get (codes "Content-Type") header ≡ some (body_type ∷ [])
    pub encoded :
        (c : C)
        → call.send_compressor ≡ some c
        → rule.has_request_fields ≡ true
        → get (codes "Content-Encoding") header ≡ some (call.name_of c ∷ [])
    pub without_compressor :
        call.send_compressor ≡ none → get (codes "Content-Encoding") header ≡ none
    pub without_body :
        rule.has_request_fields ≡ false → get (codes "Content-Encoding") header ≡ none
    pub accepts_names :
        call.compressors.names ≢ []
        → get (codes "Accept-Encoding") header ≡ some (call.compressors.names ∷ [])
    pub accepts_identity :
        call.compressors.names ≡ []
        → get (codes "Accept-Encoding") header ≡ some (call.identity ∷ [])
    pub accept : get (codes "Accept") header ≡ some ((codes "application/" ++ call.codec_name) ∷ [])

  -- The headers of a request that the transport derives have the values that it derives, and no
  -- others, whatever the metadata of the call: the timeout is that of the deadline; the
  -- Content-Encoding is the name of the compressor for requests if there is one and the rule has
  -- a body; the Content-Type is that of the body unless it is empty; the accepted encodings are
  -- the names of the compressors, or else identity; and the codec is always named.
  pub request_header-Derived :
      (rule : Rule) (content_type : Bytes)
      → Derived rule content_type (request_header call rule content_type)
  unfolding request_header send_encoding accept_encoding
  request_header-Derived rule content_type =
      let t = metadata_headers call in
      let timed = set_some (codes "X-Server-Timeout") call.timeout t in
      let typed = set_some (codes "Content-Type") (nonempty call content_type) timed in
      let encoded = set_some (codes "Content-Encoding") (send_encoding call rule) typed in
      let accepting = put (codes "Accept-Encoding") (accept_encoding call ∷ []) encoded in
      let accepts = (codes "application/" ++ call.codec_name) ∷ [] in
      let through : (key : Bytes)
          → bytes_eq (codes "Accept") key ≡ false
          → bytes_eq (codes "Accept-Encoding") key ≡ false
          → get key (put (codes "Accept") accepts accepting) ≡ get key encoded =
        λ key a b.
          get-put (codes "Accept") key accepts accepting
          ∙ (ground (
            arith,
            a,
            b,
            get-put (codes "Accept-Encoding") key (accept_encoding call ∷ []) encoded,
          )) in
      let type_sent : get (codes "Content-Type") (request_header call rule content_type)
          ≡ one_value (nonempty call content_type) =
        through (codes "Content-Type") refl refl
        ∙ set_some-get_other (codes "Content-Encoding") (codes "Content-Type")
            (send_encoding call rule) typed refl
        ∙ set_some-get (codes "Content-Type") (nonempty call content_type) timed (
            set_some-get_other (codes "X-Server-Timeout") (codes "Content-Type") call.timeout t refl
            ∙ protocol-metadata_headers (codes "Content-Type") refl refl) in
      let encoding_sent : get (codes "Content-Encoding") (request_header call rule content_type)
          ≡ one_value (send_encoding call rule) =
        through (codes "Content-Encoding") refl refl
        ∙ set_some-get (codes "Content-Encoding") (send_encoding call rule) typed (
            set_some-get_other (codes "Content-Type") (codes "Content-Encoding")
              (nonempty call content_type) timed refl
            ∙ set_some-get_other (codes "X-Server-Timeout") (codes "Content-Encoding") call.timeout
                t refl
            ∙ protocol-metadata_headers (codes "Content-Encoding") refl refl) in
      let accept_sent : get (codes "Accept-Encoding") (request_header call rule content_type)
          ≡ some (accept_encoding call ∷ []) =
        get-put (codes "Accept") (codes "Accept-Encoding") accepts accepting
        ∙ get-put (codes "Accept-Encoding") (codes "Accept-Encoding") (accept_encoding call ∷ [])
            encoded in
      record {
        timeout =
            through (codes "X-Server-Timeout") refl refl
            ∙ set_some-get_other (codes "Content-Encoding") (codes "X-Server-Timeout")
                (send_encoding call rule) typed refl
            ∙ set_some-get_other (codes "Content-Type") (codes "X-Server-Timeout")
                (nonempty call content_type) timed refl
            ∙ set_some-get (codes "X-Server-Timeout") call.timeout t timeout-metadata_headers;
        untyped = λ h. type_sent ∙ untyped_value content_type h;
        typed = λ h. type_sent ∙ nonempty_value content_type h;
        encoded = λ c h b. encoding_sent ∙ ground (arith, h, b);
        without_compressor = λ h. encoding_sent ∙ ground (arith, h);
        without_body = λ b. encoding_sent ∙ no_body rule b;
        accepts_names = λ h. accept_sent ∙ names_sent h;
        accepts_identity = λ h. accept_sent ∙ ground (arith, h);
        accept = get-put (codes "Accept") (codes "Accept") accepts accepting;
      }
