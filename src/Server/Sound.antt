-- ===== src/Server/Sound.antt =====
-- The state of a stream whose response is sound, kept by every operation of the sending side.
use vanguard_go.Prelude.{
  Bool-cases, Bytes, Option, Option-cases, [], arith, codes, false, if◌then◌else◌, inl, inr,
  is_empty, none, not, refl, some, sym, true, ◌&&◌, ◌∙◌, ◌∷◌, ◌≡◌, ◌⊎◌,
}
use vanguard_go.Prelude.Map.{get, get-put, put}
use vanguard_go.Server.{
  Header, Io, SendError, ServerStream, Serving, close_step, first_value, flush_headers, send,
  send_body, set_content_type, set_metadata_headers, with_content_type, write, write_head,
}
use vanguard_go.Server.Headers.{set_metadata_headers-get}

abbrev pub content_encoding : Bytes
content_encoding = codes "Content-Encoding"

-- A stream before any call, for a response with these headers.
abbrev pub fresh : Header → ServerStream
fresh header = record {
  header = header;
  head = none;
  plain = [];
  packed = [];
  packing = false;
  packing_closed = false;
  sent = false;
  headers_set = false;
}

module _ {M E : Type 0} (serving : Serving M E) where
  -- The bytes are those that the head announces.
  pub record Encoded (s : ServerStream) (head : Header) : Type 0 where
    pub written : s.head ≡ some (200, head)
    pub packs :
        s.packing ≡ true
        → (name : Bytes) × (serving.response_compressor ≡ some name)
          × (get content_encoding head ≡ some (name ∷ []))
          × (s.plain ≡ [])
    pub plain : s.packing ≡ false → (get content_encoding head ≡ none) × (s.packed ≡ [])

  -- No head and no bytes yet, or a head with the bytes that it announces.
  pub data IsSound (s : ServerStream) : Type 0 where
    unwritten :
        s.headers_set ≡ false
        → s.head ≡ none
        → s.packing ≡ false
        → s.plain ≡ []
        → s.packed ≡ []
        → get content_encoding s.header ≡ none
        → IsSound s
    headed : (head : Header) → s.headers_set ≡ true → Encoded s head → IsSound s

  unencoded :
      (header metadata : Header)
      → get content_encoding header ≡ none
      → get content_encoding (with_content_type serving (set_metadata_headers header metadata))
        ≡ none
  unfolding with_content_type
  unencoded header metadata h =
      let kept : get content_encoding (set_metadata_headers header metadata) ≡ none =
        set_metadata_headers-get content_encoding metadata header ∙ h in
      elim (Bool-cases
        (is_empty (first_value (codes "Content-Type") (set_metadata_headers header metadata)))) [
          | inl blank ↦
              rw (blank, with_content_type)
                (get-put (codes "Content-Type") content_encoding (serving.default_content_type ∷ [])
                    (set_metadata_headers header metadata)
                  ∙ kept)
          | inr given ↦ rw (given, with_content_type) kept
        ]

  pub flush_headers-IsSound :
      (compressor : Option Bytes) (metadata : Header) (io : Io E) (s : ServerStream)
      → (compressor ≡ none) ⊎ (compressor ≡ serving.response_compressor)
      → IsSound s
      → IsSound (flush_headers serving compressor metadata io s).0
  unfolding flush_headers write_head
  flush_headers-IsSound compressor metadata io s c (headed head h e) =
      let same : (flush_headers serving compressor metadata io s).0 ≡ s =
        rw (h, flush_headers) refl in
      rw same (headed head h e)
  flush_headers-IsSound none metadata io s c (unwritten h a b p q d) =
      let header = with_content_type serving (set_metadata_headers s.header metadata) in
      rw (h, flush_headers)
        (headed header refl (record {
          written = refl;
          packs = λ k. absurd (ground (arith, b, k));
          plain = λ k. (unencoded s.header metadata d, q);
        }))
  flush_headers-IsSound (some name) metadata io s c (unwritten h a b p q d) =
      let header = with_content_type serving (set_metadata_headers s.header metadata) in
      elim (Option-cases io.compress_error) [
        | inr (e, k) ↦
            rw (h, k, flush_headers) (unwritten h a b p q (unencoded s.header metadata d))
        | inl k ↦
            rw (h, k, flush_headers)
              (headed (put content_encoding (name ∷ []) header) refl (record {
                written = refl;
                packs = λ _. (
                  name,
                  elim c [ inl e ↦ absurd (ground (arith, e)) | inr e ↦ sym e ],
                  get-put content_encoding content_encoding (name ∷ []) header,
                  p,
                );
                plain = λ l. absurd (ground (arith, l));
              }))
      ]

  flush_headers_done :
      (compressor : Option Bytes) (metadata : Header) (io : Io E) (s : ServerStream)
      → (flush_headers serving compressor metadata io s).1 ≡ none
      → (flush_headers serving compressor metadata io s).0.headers_set ≡ true
  unfolding flush_headers write_head
  flush_headers_done compressor metadata io s h = elim (Bool-cases s.headers_set) [
    | inl e ↦ rw (e, flush_headers) refl
    | inr e ↦ elim (Option-cases compressor) [
      | inl n ↦ rw (e, n, flush_headers) refl
      | inr (name, n) ↦ elim (Option-cases io.compress_error) [
        | inl k ↦ rw (e, n, k, flush_headers) refl
        | inr (x, k) ↦ absurd (ground (arith, e, n, k, h))
      ]
    ]
  ]

  -- The stream has a head, and the bytes that it announces.
  IsHeaded : ServerStream → Type 0
  IsHeaded s = (s.headers_set ≡ true) × (head : Header) × Encoded s head

  IsSound-IsHeaded : (s : ServerStream) → IsSound s → s.headers_set ≡ true → IsHeaded s
  unfolding IsHeaded
  IsSound-IsHeaded s (headed head h e) k = (h, head, e)
  IsSound-IsHeaded s (unwritten h a b p q d) k = absurd (ground (arith, h, k))

  write-IsSound : (bytes : Bytes) (s : ServerStream) → IsHeaded s → IsSound (write serving bytes s)
  unfolding write IsHeaded
  write-IsSound bytes s (h, head, e) = elim (Bool-cases s.packing) [
    | inl packing ↦
        rw (packing, write)
          (headed head h (record {
            written = e.written;
            packs = λ _. e.packs packing;
            plain = λ k. absurd (ground (arith, k, packing));
          }))
    | inr direct ↦
        rw (direct, write)
          (headed head h (record {
            written = e.written;
            packs = λ k. absurd (ground (arith, k, direct));
            plain = λ _. e.plain direct;
          }))
  ]

  send_body-IsSound :
      (msg : M) (io : Io E) (s : ServerStream) (e : Option (SendError E))
      → IsSound s
      → (e ≡ none → s.headers_set ≡ true)
      → IsSound (send_body serving msg io (s, e)).0
  unfolding send_body
  send_body-IsSound msg io s (some e) sound h = sound
  send_body-IsSound msg io s none sound h =
      let done = write-IsSound (serving.encode_body msg).0 s (IsSound-IsHeaded s sound (h refl)) in
      elim (Option-cases (serving.encode_body msg).1) [
        | inl k ↦ rw (k, send_body) done
        | inr (x, k) ↦ rw (k, send_body) done
      ]

  set_content_type-IsSound :
      (msg : M) (s : ServerStream) → IsSound s → IsSound (set_content_type serving msg s)
  unfolding set_content_type
  set_content_type-IsSound msg s (headed head h e) =
      let same : set_content_type serving msg s ≡ s = rw (h, set_content_type) refl in
      rw same (headed head h e)
  set_content_type-IsSound msg s (unwritten h a b p q d) =
      let given =
        if is_empty (serving.body_content_type msg)
        then codes "application/octet-stream"
        else serving.body_content_type msg in
      rw (h, set_content_type)
        (unwritten refl a b p q
          (get-put (codes "Content-Type") content_encoding (given ∷ []) s.header ∙ d))

  set_content_type-sent :
      (msg : M) (s : ServerStream) → IsSound s → IsSound (record s { sent = true })
  set_content_type-sent msg s (headed head h e) =
      headed head h (record { written = e.written; packs = e.packs; plain = e.plain })
  set_content_type-sent msg s (unwritten h a b p q d) = unwritten h a b p q d

  pub send-IsSound :
      (msg : M) (metadata : Header) (io : Io E) (s : ServerStream)
      → IsSound s
      → IsSound (send serving msg metadata io s).0
  unfolding send
  send-IsSound msg metadata io s sound = elim (Bool-cases (s.sent && not serving.streaming)) [
    | inl twice ↦ rw (twice, send) sound
    | inr allowed ↦
        let ready = set_content_type serving msg (record s { sent = true }) in
        let flushed = flush_headers serving serving.response_compressor metadata io ready in
        let sound' =
          flush_headers-IsSound serving.response_compressor metadata io ready (inr refl) (
            set_content_type-IsSound msg (record s { sent = true })
              (set_content_type-sent msg s sound)) in
        rw (allowed, send)
          (send_body-IsSound msg io flushed.0 flushed.1 sound'
            (flush_headers_done serving.response_compressor metadata io ready))
  ]

  closed-IsSound :
      (s : ServerStream)
      → s.packing ≡ true
      → IsSound s
      → IsSound (record s { packing = true; packing_closed = true })
  closed-IsSound s packing (headed head h e) = headed head h (record {
    written = e.written;
    packs = λ _. e.packs packing;
    plain = λ k. absurd (ground (arith, k));
  })
  closed-IsSound s packing (unwritten h a b p q d) = absurd (ground (arith, packing, b))

  pub close_step-IsSound :
      (io : Io E) (s : ServerStream) (e : Option (SendError E))
      → IsSound s
      → IsSound (close_step serving io (s, e)).0
  unfolding close_step
  close_step-IsSound io s (some e) sound = sound
  close_step-IsSound io s none sound = elim (Bool-cases s.packing) [
    | inl packing ↦ rw (packing, close_step) (closed-IsSound s packing sound)
    | inr direct ↦
        let same : (close_step serving io (s, none)).0 ≡ s = rw (direct, close_step) refl in
        rw same sound
  ]
