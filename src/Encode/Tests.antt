-- ===== src/Encode/Tests.antt =====
-- Paths of requests for books.
use vanguard_go.Encode.{
  encode_path, fill_variables, fit, http_split_var, is_misfit, place, place_all, template_segments,
}
use vanguard_go.Encode.Captured.{Captured, fill_variables-capture}
use vanguard_go.Encode.Filled.{Filled}
use vanguard_go.Encode.Placed.{HasBytes, IsLast, Stands, fill_variables-Stands}
use vanguard_go.Encode.{EncodeError}
use vanguard_go.Encode.Values.{
  Tree, contents, encode_elements, encode_query_values, encode_value, entry, marshal_all,
  http_encode_path_values, no_entries, range_entries, range_field, variable_value,
}
use vanguard_go.Encode.Whole.{IsFilledPath, http_encode_path_values-IsFilledPath}
use vanguard_go.Fields.{
  append_from, append_part, append_path_to_field_descriptors, find_field, dotted_names, field_name,
  resolve_field_descriptors_to_path,
}
use vanguard_go.Fields.Sample.{full_name, library, pen_names, title, written_by}
use vanguard_go.Params.{
  ParamError, is_message_kind, is_parameter_type, is_wkt_with_scalar_json_mapping, out_of_range,
  unmarshal_field_value, unmarshal_kind, unmarshal_within,
}
use vanguard_go.Params.Interface.{of_string}
use vanguard_go.Client.{Calling, Url}
use vanguard_go.Client.Http.{join_path, join_query, request_url}
use vanguard_go.Client.Sample.{unary_call}
use vanguard_go.Receive.Sent.{Decodes, request_url-decode_request_url}
use vanguard_go.Receive.Url.{
  decode_query, decode_query_value, decode_request_url, decode_variable, decode_variables,
  is_unknown,
}
use vanguard_go.Params.Marshal.{
  get_parameter, leaf_value, marshal_field_value, marshal_kind, marshal_string, marshal_within,
  set_leaf, set_parameter, set_path,
}
use vanguard_go.Params.Sample.{Card, blank, cards, cell_string, held, holds, no_codecs}
use vanguard_go.Route.Target.{RouteTargetVar}
use vanguard_go.Route.Target.Sample.{title_target, title_variable}
use vanguard_go.Route.Verb.{split_segment, split_verb}
use vanguard_go.Escape.{path_escape, path_unescape, hex_bytes, hex_count, is_variable}
use vanguard_go.Escape.Bytewise.{IsByte}
use vanguard_go.Prelude.{
  All, Bool, Bytes, Lacks, ltb, ◌&&◌, List, Result, [], arith, codes, true, none, ok, refl, some,
  subst, sym, ◌∙◌, ok-injective, contains_byte, false, ◌==◌, Bool-cases, inl, inr, ℕ, length, ◌∷◌,
  ◌≡◌, ◌⊎◌,
}
use vanguard_go.Route.Capture.{
  capture, capture_between, index_byte, segment_offset, segment_offset_from, size, slice,
  trim_suffix, trim_verb, unescape_value,
}
use vanguard_go.Query.RoundTrip.{IsBytePair}
use vanguard_go.Query.{
  encode_pair, encode_query, encode_values, query_escape, sort_pairs, pairs_of, query_pair,
  query_unescape, query_values,
}
use vanguard_go.Template.{PathVariable}
use vanguard_go.Template.Written.{written}

abbrev shelf : PathVariable
shelf = record { field_path = codes "shelf"; start = 1; end_segment = some 2 }

abbrev book_path : PathVariable
book_path = record { field_path = codes "title"; start = 3; end_segment = none }

abbrev value_of : PathVariable → ℕ → Result ℕ Bytes
value_of v n = ok (codes "a/b")

value_of-HasBytes : (v : PathVariable) → HasBytes (λ w. w) value_of v
value_of-HasBytes v n value e =
    subst (All IsByte) (ok-injective e) (omega arith, (omega arith, (omega arith, tt)))

abbrev segments : List Bytes
segments = codes "shelves" ∷ (codes "*" ∷ (codes "books" ∷ (codes "**" ∷ [])))

abbrev filled : List Bytes
filled = codes "shelves" ∷ (codes "a%2Fb" ∷ (codes "books" ∷ (codes "a" ∷ (codes "b" ∷ []))))

abbrev one_filled : List Bytes
one_filled = codes "shelves" ∷ (codes "a%2Fb" ∷ (codes "books" ∷ (codes "**" ∷ [])))

both_filled :
    fill_variables (λ v. v) value_of (shelf ∷ (book_path ∷ [])) [] segments
    ≡ ok ((codes "shelf", 1) ∷ ((codes "title", 1) ∷ []), filled)
unfolding fill_variables fit place place_all http_split_var is_misfit size path_escape hex_bytes
    is_variable hex_count
both_filled = refl

one_variable_filled :
    fill_variables (λ v. v) value_of (shelf ∷ []) [] segments
    ≡ ok ((codes "shelf", 1) ∷ [], one_filled)
unfolding fill_variables fit place place_all http_split_var is_misfit size path_escape hex_bytes
    is_variable hex_count
one_variable_filled = refl

fill_variables-Stands_example :
    Filled segments filled
    × All (Stands (λ v. v) value_of filled) (shelf ∷ (book_path ∷ []))
    × ((length filled ≡ length segments)
        ⊎ IsLast (λ v. v) value_of filled (shelf ∷ (book_path ∷ [])))
fill_variables-Stands_example =
    fill_variables-Stands (λ v. v) value_of (shelf ∷ (book_path ∷ [])) []
      ((codes "shelf", 1) ∷ ((codes "title", 1) ∷ [])) segments filled
      (value_of-HasBytes shelf, (value_of-HasBytes book_path, tt)) (omega arith, (omega arith, tt))
      both_filled

contains_byte-Lacks : (b : ℕ) (s : Bytes) → contains_byte s b ≡ false → Lacks b s
contains_byte-Lacks b [] h = tt
contains_byte-Lacks b (c ∷ s) h = elim (Bool-cases (c == b)) [
  | inl e ↦ absurd (ground (arith, e, h))
  | inr e ↦ (λ d. ground (arith, e, d), contains_byte-Lacks b s (ground (arith, e, h)))
]

segments-Lacks : All (Lacks b'/') segments
segments-Lacks =
    let lacks = contains_byte-Lacks b'/' in
    (
      lacks (codes "shelves") refl,
      (lacks (codes "*") refl, (lacks (codes "books") refl, (lacks (codes "**") refl, tt))),
    )

fill_variables-capture_example : All (Captured (λ v. v) value_of (written one_filled)) (shelf ∷ [])
fill_variables-capture_example =
    fill_variables-capture (λ v. v) value_of (shelf ∷ []) [] ((codes "shelf", 1) ∷ []) segments
      one_filled (value_of-HasBytes shelf, tt) segments-Lacks (omega arith, tt) (refl, tt)
      one_variable_filled

abbrev dune : Card
dune = holds (cell_string (codes "Dune"))

abbrev title_value : RouteTargetVar library → ℕ → Result (ParamError ℕ) Bytes
title_value = variable_value library cards no_codecs out_of_range dune

abbrev the_title : RouteTargetVar library
the_title = record { variable = title_variable; fields = title ∷ [] }

the_title_read : (n : ℕ) → title_value the_title n ≡ ok (codes "Dune")
unfolding get_parameter leaf_value marshal_field_value marshal_within marshal_kind marshal_string
the_title_read n = refl

the_title-HasBytes : HasBytes (λ v. v.variable) title_value the_title
the_title-HasBytes n value e =
    subst (All IsByte) (ok-injective (sym (the_title_read n) ∙ e))
      (omega arith, (omega arith, (omega arith, (omega arith, tt))))

abbrev v1_segments : List Bytes
v1_segments = codes "v1" ∷ (codes "*" ∷ [])

v1_cut :
    ◌≡◌ {A = Result (EncodeError (ParamError ℕ)) (List Bytes)}
      (template_segments (split_verb (codes "/v1/*")).0)
      (ok v1_segments)
unfolding template_segments split_verb split_segment
v1_cut = refl

abbrev dune_tree : Tree library cards no_codecs out_of_range
dune_tree = entry title (contents (of_string (codes "Dune")) [] no_entries) no_entries

dune_encoded :
    http_encode_path_values library cards no_codecs out_of_range dune dune_tree title_target
    ≡ ok (codes "/v1/Dune", [])
unfolding http_encode_path_values encode_path template_segments split_verb split_segment
    fill_variables fit place place_all http_split_var is_misfit size path_escape hex_bytes
    is_variable hex_count get_parameter leaf_value marshal_field_value marshal_within marshal_kind
    marshal_string encode_query_values range_entries range_field is_parameter_type encode_value
    resolve_field_descriptors_to_path is_wkt_with_scalar_json_mapping field_name dotted_names
dune_encoded = refl

http_encode_path_values-IsFilledPath_example :
    IsFilledPath library cards no_codecs out_of_range dune title_target v1_segments
      (codes "/v1/Dune")
http_encode_path_values-IsFilledPath_example =
    http_encode_path_values-IsFilledPath library cards no_codecs out_of_range dune dune_tree
      title_target v1_segments (codes "/v1/Dune") [] v1_cut (the_title-HasBytes, tt)
      (omega arith, tt) dune_encoded

-- The fields of a card as a book: its title, and an author with a pen name and a full name.
abbrev fields_of : Card → Tree library cards no_codecs out_of_range
fields_of card =
    let text = held card in
    let names =
      entry pen_names (contents text (text ∷ []) no_entries)
        (entry full_name (contents text [] no_entries) no_entries) in
    entry title (contents text [] no_entries) (entry written_by (contents text [] names) no_entries)

abbrev dune_query : List (Bytes × Bytes)
dune_query =
    (codes "writtenBy.penNames", codes "Dune") ∷ ((codes "writtenBy.fullName", codes "Dune") ∷ [])

abbrev dune_url : Url
dune_url = record {
  raw_path = codes "/v1/Dune";
  path = codes "/v1/Dune";
  raw_query = codes "writtenBy.fullName=Dune&writtenBy.penNames=Dune";
}

abbrev get_title : Calling Card Bytes ℕ
get_title =
    unary_call [] (λ card. ok (codes "/v1/Dune", encode_values dune_query)) (λ card. codes "{}")

dune_encoded_all :
    http_encode_path_values library cards no_codecs out_of_range dune (fields_of dune) title_target
    ≡ ok (codes "/v1/Dune", dune_query)
unfolding http_encode_path_values encode_path template_segments split_verb split_segment
    fill_variables fit place place_all http_split_var is_misfit size path_escape hex_bytes
    is_variable hex_count get_parameter leaf_value marshal_field_value marshal_within marshal_kind
    marshal_string encode_query_values range_entries range_field is_parameter_type encode_value
    resolve_field_descriptors_to_path is_wkt_with_scalar_json_mapping field_name dotted_names
    encode_elements marshal_all is_message_kind
dune_encoded_all = refl

get_title_url : request_url get_title dune ≡ ok dune_url
unfolding request_url join_path join_query encode_values sort_pairs encode_query encode_pair
    query_escape hex_bytes is_variable
get_title_url = refl

abbrev all_below : Bytes → Bool
all_below [] = true
all_below (c ∷ s) = ltb c 256 && all_below s

all_below-IsByte : (s : Bytes) → all_below s ≡ true → All IsByte s
all_below-IsByte [] h = tt
all_below-IsByte (c ∷ s) h = (ground (arith, h), all_below-IsByte s (ground (arith, h)))

dune_query-IsBytePair : All IsBytePair dune_query
dune_query-IsBytePair =
    let is_text = all_below-IsByte in
    (
      (is_text (codes "writtenBy.penNames") refl, is_text (codes "Dune") refl),
      ((is_text (codes "writtenBy.fullName") refl, is_text (codes "Dune") refl), tt),
    )

request_url-decode_request_url_example :
    Decodes library cards no_codecs out_of_range dune title_target
      (codes "/v1/Dune")
      (codes "writtenBy.fullName=Dune&writtenBy.penNames=Dune")
      dune_query
request_url-decode_request_url_example =
    request_url-decode_request_url library cards no_codecs out_of_range fields_of title_target
      get_title dune v1_segments (codes "/v1/Dune") dune_query dune_url refl refl v1_cut
      (contains_byte-Lacks b'/' (codes "v1") refl, (contains_byte-Lacks b'/' (codes "*") refl, tt))
      (the_title-HasBytes, tt) (omega arith, tt) (refl, tt) dune_query-IsBytePair dune_encoded_all
      refl get_title_url

-- An unknown parameter is skipped, and a later one overwrites the title of the path.
received :
    decode_request_url library cards no_codecs out_of_range title_target true
      (codes "/v1/Dune")
      (codes "isbn=1&title=Ubik")
      blank
    ≡ ok (holds (cell_string (codes "Ubik")))
unfolding decode_request_url trim_verb trim_suffix split_verb split_segment decode_variables
    decode_variable capture capture_between segment_offset segment_offset_from slice index_byte
    unescape_value path_unescape set_parameter set_path set_leaf unmarshal_field_value
    unmarshal_within unmarshal_kind decode_query decode_query_value query_values pairs_of query_pair
    query_unescape append_path_to_field_descriptors append_from append_part find_field is_unknown
received = refl
