-- ===== src/Receive/Sent.antt =====
-- The URL that a client writes for a message, as a server decodes it.
use vanguard_go.Encode.{EncodeError, encode_path, fill_variables, template_segments, verb_suffix}
use vanguard_go.Encode.Captured.{Captured, IsOneWide, fill_variables-capture}
use vanguard_go.Encode.Placed.{HasBytes}
use vanguard_go.Encode.Values.{Tree, encode_query_values, http_encode_path_values, variable_value}
use vanguard_go.Fields.Descriptors.{Reflection}
use vanguard_go.Params.{ParamError}
use vanguard_go.Params.Interface.{Codecs, Messages}
use vanguard_go.Params.Marshal.{set_parameter}
use vanguard_go.Prelude.{
  All, Bool, Bytes, bytes_lt, is_empty, subst, true, Lacks, List, Result, Result-cases, [], ap, ap₂,
  append-nil, arith, err, inl, inr, length, length-append, ok, refl, sym, take-append, ℕ, ◌++◌, ◌-◌,
  ◌>>=◌, ◌∙◌, ◌∷◌, ◌≡◌, ◌≤◌,
}
use vanguard_go.Client.{Calling, Url}
use vanguard_go.Client.Http.{join_path, join_query, request_url}
use vanguard_go.Prelude.Branches.{if_holds}
use vanguard_go.Query.{encode_values, insert_pair, sort_pairs}
use vanguard_go.Query.Sorted.{IsOrdered, sort_pairs-IsOrdered, values_of, values_of-sort_pairs}
use vanguard_go.Query.RoundTrip.{IsBytePair, query_values-encode_query}
use vanguard_go.Receive.Url.{
  UrlError, decode_query, decode_request_url, decode_variable, decode_variables, from_path,
}
use vanguard_go.Route.Capture.{capture, slice, trim_suffix, trim_verb}
use vanguard_go.Route.Target.{RouteTarget, RouteTargetVar}
use vanguard_go.Route.Verb.{split_verb}
use vanguard_go.Template.Written.{written}

eq_nil : (s : Bytes) → is_empty s ≡ true → s ≡ []
eq_nil [] h = refl
eq_nil (c ∷ s) h = absurd (ground arith)

insert_pair-All :
    (P : Bytes × Bytes → Type 0) (pair : Bytes × Bytes) (pairs : List (Bytes × Bytes))
    → P pair
    → All P pairs
    → All P (insert_pair pair pairs)
insert_pair-All P pair [] p h = (p, tt)
insert_pair-All P pair (other ∷ pairs) p (o, h) =
    if_holds (All P) (bytes_lt other.0 pair.0) (λ _. (o, insert_pair-All P pair pairs p h))
      (λ _. (p, (o, h)))

sort_pairs-All :
    (P : Bytes × Bytes → Type 0) (pairs : List (Bytes × Bytes))
    → All P pairs
    → All P (sort_pairs pairs)
unfolding sort_pairs
sort_pairs-All P [] h = tt
sort_pairs-All P (pair ∷ pairs) (p, h) =
    insert_pair-All P pair (sort_pairs pairs) p (sort_pairs-All P pairs h)

slice-all : (xs ys : Bytes) → slice (xs ++ ys) 0 (length xs) ≡ ok xs
unfolding slice
slice-all xs ys = ground (arith, length-append xs ys, take-append xs ys)

-- What `trimVerb` takes off is what the client has written behind the segments.
trim_suffix-verb_suffix :
    (verb path : Bytes) → trim_suffix verb (path ++ verb_suffix verb) ≡ ok path
unfolding trim_suffix
trim_suffix-verb_suffix [] path = ap ok (append-nil path)
trim_suffix-verb_suffix (c ∷ verb) path =
    let same : length (path ++ (b':' ∷ (c ∷ verb))) - length (c ∷ verb) - 1 ≡ length path =
      omega (arith, length-append path (b':' ∷ (c ∷ verb))) in
    ground (arith, length-append path (b':' ∷ (c ∷ verb)), same, slice-all path (b':' ∷ (c ∷ verb)))

module _ (r : Reflection) {E : Type 0} (ms : Messages r) (cs : Codecs ms.Msg ms.Float E)
    (mismatch : ParamError E) where
  open ms use {Msg, descriptor}

  abbrev pub set_value : RouteTargetVar r → Bytes → Msg → Result (UrlError E) Msg
  set_value var value msg = elim (set_parameter r ms cs mismatch msg var.fields value) [
    | err e ↦ err (from_path e)
    | ok done ↦ ok done
  ]

  -- A message gets the values of variables, from the last to the first.
  abbrev pub set_values : List (RouteTargetVar r × Bytes) → Msg → Result (UrlError E) Msg
  set_values [] msg = ok msg
  set_values ((var, value) ∷ values) msg = do
    changed ← set_values values msg
    set_value var value changed

  module _ (sent : Msg) where
    -- The variables, each with a value that the message sent has for it.
    abbrev pub AreValues : List (RouteTargetVar r) → List (RouteTargetVar r × Bytes) → Type 0
    AreValues [] [] = Unit
    AreValues [] (y ∷ ys) = ⊥
    AreValues (v ∷ vars) [] = ⊥
    AreValues (v ∷ vars) ((w, value) ∷ values) =
        (w ≡ v)
        × ((times : ℕ) × (variable_value r ms cs mismatch sent v times ≡ ok value))
        × AreValues vars values

    abbrev parameter : RouteTargetVar r → ℕ → Result (ParamError E) Bytes
    parameter = variable_value r ms cs mismatch sent

    record Reads (path : Bytes) (vars : List (RouteTargetVar r)) : Type 0 where
      values : List (RouteTargetVar r × Bytes)
      are_values : AreValues vars values
      decoded :
          (msg : Msg) → decode_variables r ms cs mismatch path vars msg ≡ set_values values msg

    decode_variable_ok :
        (path : Bytes) (v : RouteTargetVar r) (value : Bytes) (msg : Msg)
        → capture v.variable path ≡ ok value
        → decode_variable r ms cs mismatch path v msg ≡ set_value v value msg
    unfolding decode_variable
    decode_variable_ok path v value msg e = rw (decode_variable, e) refl

    Captured-Reads :
        (path : Bytes) (vars : List (RouteTargetVar r))
        → All (Captured (λ v. v.variable) parameter path) vars
        → Reads path vars
    unfolding decode_variables
    Captured-Reads path [] h = record { values = []; are_values = tt; decoded = λ msg. refl }
    Captured-Reads path (v ∷ vars) (h, hs) =
        let rest = Captured-Reads path vars hs in
        record {
          values = (v, h.value) ∷ rest.values;
          are_values = (refl, (h.times, h.has_value), rest.are_values);
          decoded = λ msg.
              ap₂ (λ x f. x >>= f) (rest.decoded msg)
                (λ i m. decode_variable_ok path v h.value m h.captured i);
        }

    -- Decoding the path and the query of a URL gives the values of the message sent, and then the
    -- parameters in the order written.
    pub record Decodes (target : RouteTarget r) (raw_path raw_query : Bytes)
        (query : List (Bytes × Bytes)) : Type 0 where
      pub values : List (RouteTargetVar r × Bytes)
      pub are_values : AreValues target.vars values
      pub parameters : List (Bytes × Bytes)
      pub ordered : IsOrdered parameters
      pub same_values : (key : Bytes) → values_of key parameters ≡ values_of key query
      pub decoded :
          (discard : Bool) (msg : Msg)
          → decode_request_url r ms cs mismatch target discard raw_path raw_query msg ≡ (
              set_values values msg
              >>= decode_query r ms cs mismatch discard (descriptor msg) parameters)

    Reads-Decodes :
        (target : RouteTarget r) (path : Bytes) (query : List (Bytes × Bytes)) (ys : List Bytes)
        → path ≡ written ys ++ verb_suffix (split_verb target.template).1
        → All IsBytePair query
        → Reads (written ys) target.vars
        → Decodes target path (encode_values query) query
    unfolding decode_request_url trim_verb encode_values
    Reads-Decodes target path query ys e pairs h = record {
      values = h.values;
      are_values = h.are_values;
      parameters = sort_pairs query;
      ordered = sort_pairs-IsOrdered query;
      same_values = λ key. values_of-sort_pairs key query;
      decoded = λ discard msg.
          let trimmed =
            ap (trim_suffix (split_verb target.template).1) e
            ∙ trim_suffix-verb_suffix (split_verb target.template).1 (written ys) in
          let sorted =
            query_values-encode_query (sort_pairs query) (sort_pairs-All IsBytePair query pairs) in
          rw (decode_request_url, trimmed, h.decoded msg, encode_values, sorted) refl;
    }

    encoded-Decodes :
        (tree : Tree r ms cs mismatch) (target : RouteTarget r) (ss : List Bytes) (path : Bytes)
        (query : List (Bytes × Bytes))
        → ◌≡◌ {A = Result (EncodeError (ParamError E)) (List Bytes)}
            (template_segments (split_verb target.template).0)
            (ok ss)
        → All (Lacks b'/') ss
        → All (HasBytes (λ v. v.variable) parameter) target.vars
        → All (λ v. v.variable.start ≤ length ss) target.vars
        → All (IsOneWide (λ v. v.variable) parameter) target.vars
        → All IsBytePair query
        → http_encode_path_values r ms cs mismatch sent tree target ≡ ok (path, query)
        → Decodes target path (encode_values query) query
    unfolding http_encode_path_values encode_path
    encoded-Decodes tree target ss path query cut lacks t within one pairs e =
        elim (Result-cases (fill_variables (λ v. v.variable) parameter target.vars [] ss)) [
          | inr (x, k) ↦ absurd (ground (arith, cut, k, e))
          | inl ((counts, ys), k) ↦
              elim (Result-cases
                (encode_query_values r ms cs mismatch target.request_body_field_path counts tree)) [
                  | inr (x, m) ↦ absurd (ground (arith, cut, k, m, e))
                  | inl (q, m) ↦
                      let same : written ys ++ verb_suffix (split_verb target.template).1 ≡ path =
                        ground (arith, cut, k, m, e) in
                      Reads-Decodes target path query ys (sym same) pairs (
                        Captured-Reads (written ys) target.vars (
                          fill_variables-capture (λ v. v.variable) parameter target.vars [] counts
                            ss ys t lacks within one k))
                ]
        ]

  -- A client whose rule has this target. `range` is protobuf's, the populated fields of a message in
  -- the order in which it gives them.
  module _ (range : Msg → Tree r ms cs mismatch) (target : RouteTarget r) {C F : Type 0}
      (call : Calling Msg C F) where
    request_url-parts :
        (sent : Msg) (path : Bytes) (query : Bytes) (url : Url)
        → call.base_path ≡ []
        → call.base_url.raw_query ≡ []
        → call.encode_path_values sent ≡ ok (path, query)
        → request_url call sent ≡ ok url
        → (url.raw_path ≡ path) × (url.raw_query ≡ query)
    unfolding request_url join_query join_path
    request_url-parts sent path query url no_path no_query e h =
        let joined : join_path call.base_path path ≡ path = rw (no_path, join_path) refl in
        let base : join_query call call.base_url.raw_query query ≡ query =
          if_holds (λ x. x ≡ query) (is_empty query) (λ none. no_query ∙ sym (eq_nil query none))
            (λ _. rw no_query refl) in
        elim (Result-cases (call.path_unescape (join_path call.base_path path))) [
          | inr (x, k) ↦ absurd (ground (arith, e, k, h))
          | inl (unescaped, k) ↦
              let made : ◌≡◌ {A = Url}
                  (record {
                    raw_path = join_path call.base_path path;
                    path = unescaped;
                    raw_query = join_query call call.base_url.raw_query query;
                  })
                  url =
                ground (arith, e, k, h) in
              (sym (ap (λ u. u.raw_path) made) ∙ joined, sym (ap (λ u. u.raw_query) made) ∙ base)
        ]

    -- When a client whose base URL has no path and no query makes the URL of a request for a message,
    -- by a target whose variables are one segment wide and start within its template of segments
    -- without '/', and the values of the message and its query are texts of bytes: the server's
    -- decoding of this URL into any message does the same as setting, from the last variable to the
    -- first, each variable to a value that the sent message has for it, and then the parameters of the
    -- query in the order of their keys, where every key has the values that were added for it, in the
    -- order added.
    pub request_url-decode_request_url :
        (sent : Msg) (ss : List Bytes) (path : Bytes) (query : List (Bytes × Bytes)) (url : Url)
        → call.base_path ≡ []
        → call.base_url.raw_query ≡ []
        → ◌≡◌ {A = Result (EncodeError (ParamError E)) (List Bytes)}
            (template_segments (split_verb target.template).0)
            (ok ss)
        → All (Lacks b'/') ss
        → All (HasBytes (λ v. v.variable) (variable_value r ms cs mismatch sent)) target.vars
        → All (λ v. v.variable.start ≤ length ss) target.vars
        → All (IsOneWide (λ v. v.variable) (variable_value r ms cs mismatch sent)) target.vars
        → All IsBytePair query
        → http_encode_path_values r ms cs mismatch sent (range sent) target ≡ ok (path, query)
        → call.encode_path_values sent ≡ ok (path, encode_values query)
        → request_url call sent ≡ ok url
        → Decodes sent target url.raw_path url.raw_query query
    request_url-decode_request_url sent ss path query url no_path no_query cut lacks t within one
          pairs e given made =
        let (p, q) =
          request_url-parts sent path (encode_values query) url no_path no_query given made in
        let D : Bytes → Bytes → Type 0 = λ x y. Decodes sent target x y query in
        subst (λ y. D url.raw_path y) (sym q)
          (subst (λ x. D x (encode_values query)) (sym p)
            (encoded-Decodes sent (range sent) target ss path query cut lacks t within one pairs e))
