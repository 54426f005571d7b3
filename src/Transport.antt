-- ===== src/Transport.antt =====
-- vanguard.go, the options, `Mount`, `NewTransport`, `NewClientStream` and `resolveMethod` of a
-- transport. Codecs, compressors, URLs and the HTTP client are parameters, and so are the specs and
-- descriptors of connect. The sync.Map of a transport is a map in its state; calls that race are
-- events that load and store in any order. A limit of bytes below zero cannot be given here.
pub mod Agreement
pub mod Races
pub mod Cached
mod Tests
use vanguard_go.Compression.{Compressors, encoding_name, get_compressor, new_compressors}
use vanguard_go.Fields.Descriptors.{Reflection}
use vanguard_go.Methods.{
  BindError, HttpRule, Registered, ResolveError, Routes, add_binding, resolve_methods,
}
use vanguard_go.Methods.Chosen.{choose_rule}
use vanguard_go.Methods.Specs.{Method, Spec, SpecLibrary, method_from_spec, rpc_method}
use vanguard_go.Prelude.{
  Bool, Bytes, List, Option, Result, [], bytes_eq, codes, err, false, if◌then◌else◌, is_empty, map,
  none, ok, some, true, ℕ, ◌++◌, ◌>>=◌, ◌||◌, ◌∷◌,
}
use vanguard_go.Prelude.Map.{Map, get, put}
use vanguard_go.Route.Target.{RouteTarget, RpcMethod}
use vanguard_go.Route.Trie.{empty_trie}

-- `options`, none for nil
pub record Options (Codec Resolver C : Type 0) : Type 0 where
  pub new_codec : Option (Option Resolver → Codec)
  pub resolver : Option Resolver
  pub rules : List HttpRule
  pub max_read_bytes : ℕ
  pub discard_unknown_query_params : Bool
  pub compressors : List C
  pub send_compression : Bytes

-- The functions that make an `Option` of the source, with what they are given.
pub data Setting (Codec Resolver C : Type 0) : Type 0 where
  with_codec : Option (Option Resolver → Codec) → Setting Codec Resolver C
  with_type_resolver : Option Resolver → Setting Codec Resolver C
  with_rules : List HttpRule → Setting Codec Resolver C
  with_max_read_bytes : ℕ → Setting Codec Resolver C
  with_compressors : List C → Setting Codec Resolver C
  with_send_compression : Bytes → Setting Codec Resolver C
  with_discard_unknown_query_params : Bool → Setting Codec Resolver C

-- connect.CallInfo, what NewClientStream sets of it.
pub record CallInfo (S : Type 0) : Type 0 where
  pub spec : Spec S
  pub peer_addr : Bytes
  pub protocol : Bytes
  pub codec : Bytes
  pub request_encoding : Bytes

pub data TransportError (E : Type 0) : Type 0 where
  parse_base_url : E → TransportError E
  unknown_send_compression : Bytes → Bytes → TransportError E

-- What connect and net/url give: `gzip` is connectgzip.New(), `new_json_codec` makes the default
-- codec of codec.go.
pub record Platform (Resolver : Type 0) : Type 1 where
  pub Codec : Type 0
  pub Compressor : Type 0
  pub BaseUrl : Type 0
  pub UrlError : Type 0
  pub new_json_codec : Option Resolver → Codec
  pub codec_name : Codec → Bytes
  pub gzip : Compressor
  pub identity : Bytes
  pub name_of : Compressor → Bytes
  pub parse_url : Bytes → Result UrlError BaseUrl
  pub host : BaseUrl → Bytes

module _ {Codec Resolver C : Type 0} where
  -- `applyVanguard`
  unfoldable pub apply_setting :
      Setting Codec Resolver C → Options Codec Resolver C → Options Codec Resolver C
  apply_setting (with_codec new_codec) o = record o { new_codec = new_codec }
  apply_setting (with_type_resolver resolver) o = record o { resolver = resolver }
  apply_setting (with_rules rules) o = record o { rules = o.rules ++ rules }
  apply_setting (with_max_read_bytes n) o = record o { max_read_bytes = n }
  apply_setting (with_compressors compressors) o = record o { compressors = compressors }
  apply_setting (with_send_compression name) o = record o { send_compression = name }
  apply_setting (with_discard_unknown_query_params discard) o = record o {
    discard_unknown_query_params = discard;
  }

  unfoldable pub apply_settings :
      List (Setting Codec Resolver C) → Options Codec Resolver C → Options Codec Resolver C
  apply_settings [] o = o
  apply_settings (setting ∷ settings) o = apply_settings settings (apply_setting setting o)

module _ (r : Reflection) (lib : SpecLibrary r) (p : Platform (SpecLibrary.Resolver lib)) where
  open lib use {Schema, Resolver}
  open p use {
    Codec, Compressor, BaseUrl, UrlError, new_json_codec, codec_name, gzip, identity, name_of,
    parse_url, host,
  }

  abbrev pub Config : Type 0
  Config = Options Codec Resolver Compressor

  unfoldable pub default_options : Config
  default_options = record {
    new_codec = none;
    resolver = none;
    rules = [];
    max_read_bytes = 4194304;
    discard_unknown_query_params = false;
    compressors = gzip ∷ [];
    send_compression = [];
  }

  unfoldable pub configure : List (Setting Codec Resolver Compressor) → Config
  configure settings = apply_settings settings default_options

  unfoldable pub effective_codec : Config → Codec
  effective_codec o = elim o.new_codec [
    | none ↦ new_json_codec o.resolver
    | some factory ↦ factory o.resolver
  ]

  -- The restHandler that `Mount` installs, less the server.
  pub record Mounted : Type 0 where
    pub options : Config
    pub codec : Codec
    pub compressors : Compressors Compressor
    pub methods : Map (Registered r)
    pub routes : Routes r

  -- The methods that `resolveMethods` reads from the specs of the server.
  unfoldable pub rpc_method_from_spec : Option Resolver → Spec Schema → Option (RpcMethod r)
  rpc_method_from_spec resolver spec = elim (method_from_spec r lib spec resolver) [
    | none ↦ none
    | some m ↦ some (rpc_method r lib m)
  ]

  -- `methods` is the cache.
  pub record Transport : Type 0 where
    pub base_url : BaseUrl
    pub options : Config
    pub codec : Codec
    pub compressors : Compressors Compressor
    pub send_compressor : Option Compressor
    pub methods : Map (Method r lib)

  unfoldable pub find_send_compressor :
      Bytes → Compressors Compressor → Result (TransportError UrlError) (Option Compressor)
  find_send_compressor name compressors =
      if is_empty name || bytes_eq name identity
      then ok none
      else elim (get_compressor identity name_of name compressors) [
        | none ↦ err (unknown_send_compression name compressors.names)
        | some c ↦ ok (some c)
      ]

  unfoldable pub new_transport :
      Bytes → List (Setting Codec Resolver Compressor) → Result (TransportError UrlError) Transport
  new_transport base_url settings =
      let options = configure settings in
      let compressors = new_compressors identity name_of options.compressors in
      elim (parse_url base_url) [
        | err e ↦ err (parse_base_url e)
        | ok parsed ↦ elim (find_send_compressor options.send_compression compressors) [
          | err e ↦ err e
          | ok send_compressor ↦ ok (record {
            base_url = parsed;
            options = options;
            codec = effective_codec options;
            compressors = compressors;
            send_compressor = send_compressor;
            methods = [];
          })
        ]
      ]

  -- The errors of `resolveMethod`, with the procedure.
  pub data MethodError : Type 0 where
    no_descriptor no_rule : Bytes → MethodError
    attach_failed : Bytes → BindError r → MethodError

  module _ (extension : RpcMethod r → Option HttpRule) where
    unfoldable pub mount :
        List (Setting Codec Resolver Compressor)
        → List (Spec Schema)
        → Result (ResolveError r) Mounted
    mount settings specs = do
      (methods, routes) ←
          resolve_methods r extension
            (map (rpc_method_from_spec (configure settings).resolver) specs)
            (configure settings).rules
      ok (record {
        options = configure settings;
        codec = effective_codec (configure settings);
        compressors = new_compressors identity name_of (configure settings).compressors;
        methods = methods;
        routes = routes;
      })

    -- `resolveMethod` between its `Load` and its `LoadOrStore`; the last part is that of the
    -- one-method routeTrie.
    unfoldable pub resolve_fresh : Config → Spec Schema → Result MethodError (Method r lib)
    resolve_fresh options spec = elim (method_from_spec r lib spec options.resolver) [
      | none ↦ err (no_descriptor spec.procedure)
      | some method ↦ elim (choose_rule r extension options.rules (rpc_method r lib method)) [
        | none ↦ err (no_rule spec.procedure)
        | some rule ↦ elim (add_binding r true (rpc_method r lib method) rule.primary empty_trie) [
          | err e ↦ err (attach_failed spec.procedure e)
          | ok (routes, target) ↦ ok (record method { http_rule = some target })
        ]
      ]
    ]

    -- `LoadOrStore`
    unfoldable pub load_or_store : Bytes → Method r lib → Map (Method r lib) → Map (Method r lib)
    load_or_store procedure method methods = elim (get procedure methods) [
      | none ↦ put procedure method methods
      | some stored ↦ methods
    ]

    unfoldable pub resolve_method :
        Spec Schema → Transport → Transport × Result MethodError (Method r lib)
    resolve_method spec t = elim (get spec.procedure t.methods) [
      | some cached ↦ (t, ok cached)
      | none ↦ elim (resolve_fresh t.options spec) [
        | err e ↦ (t, err e)
        | ok method ↦
            (record t { methods = load_or_store spec.procedure method t.methods }, ok method)
      ]
    ]

    -- What NewClientStream does before it makes the stream: the info of the context is none
    -- without one.
    unfoldable pub new_stream :
        Spec Schema
        → Option (CallInfo Schema)
        → Transport
        → Transport × Result MethodError (Method r lib × Option (CallInfo Schema))
    new_stream spec info t =
        let (t', resolved) = resolve_method spec t in
        elim resolved [
          | err e ↦ (t', err e)
          | ok method ↦ (
            t',
            ok (
              method,
              elim info [
                | none ↦ none
                | some _ ↦ some (record {
                  spec = spec;
                  peer_addr = host t.base_url;
                  protocol = codes "rest";
                  codec = codec_name t.codec;
                  request_encoding = encoding_name identity name_of t.send_compressor;
                })
              ],
            ),
          )
        ]
