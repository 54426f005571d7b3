-- ===== src/Client/Sample.antt =====
-- A unary call with a JSON body, for tests.
use vanguard_go.Client.{Calling, Rule}
use vanguard_go.Prelude.{Bytes, Result, [], codes, err, false, none, ok, some, true, ℕ, ◌∷◌}
use vanguard_go.Status.{ErrorChain}

abbrev pub plain_chain : ErrorChain ℕ
plain_chain = record {
  as_type = λ e. none;
  deadline = λ e. false;
  canceled = λ e. false;
  text = λ e. [];
}

abbrev pub post : Rule
post = record { http_method = codes "POST"; has_request_fields = true }

-- A call below this base path, whose base URL has no query.
abbrev pub unary_call :
    {M : Type 0} → Bytes → (M → Result ℕ (Bytes × Bytes)) → (M → Bytes) → Calling M Bytes ℕ
unary_call base encode_path_values encode_body = record {
  client_streams = false;
  server_streams = false;
  rule = some post;
  base_url = record { raw_path = base; path = base; raw_query = [] };
  base_path = base;
  encode_path_values = encode_path_values;
  path_unescape = λ path. ok path;
  body_content_type = λ msg. codes "application/json";
  encode_body = encode_body;
  codec_name = codes "json";
  send_compressor = none;
  name_of = λ c. c;
  compress = λ c s. s;
  compressors = record { by_name = []; names = [] };
  identity = codes "identity";
  max_read_bytes = 0;
  metadata = some ((codes "X-Server-Timeout", codes "9" ∷ []) ∷ []);
  timeout = some (codes "5");
  build_error = none;
  chain = plain_chain;
  is_eof = λ e. false;
  is_closed_pipe = λ e. false;
  is_too_large = λ e. false;
  limit_text = [];
  unknown_encoding = λ name. name;
  no_rule = [];
  canceled = 1;
  status_codec = record {
    codec_name = codes "json";
    marshal_write = λ stat. [];
    unmarshal_read = λ s. (record { code = 0; message = []; details = [] }, false);
  };
  new_any = λ type_url s. err [];
  status_text = λ code. [];
}
