-- ===== src/Lib.antt =====
-- A model of Vanguard, which serves RPC methods of connect as REST: a rule (google.api.http) gives
-- a method an HTTP method and a path template, and a request whose path the template reads is
-- decoded into the method's message.
--
-- The parts and their files. A function keeps its name, in snake case; each part is a file, with its
-- laws in the files below it.
-- * Escape (path_parser.go): pathEscape, pathUnescape and the classes of characters. A string is the
--   list of its bytes.
-- * Template (path_parser.go): parsePathTemplate and the methods of pathParser, each a function from
--   a parser to a result. The parser calls itself for a variable, on fuel: the length of the
--   template, which is enough since every segment takes a byte.
-- * Segment, Route/Verb and Route/Trie (router.go): canonicalSegment, splitVerb, routeTrie with
--   insert, findTarget and match. Go changes the nodes of a trie in place and nothing else refers
--   to a node, so insert returns the new trie.
-- * Route/Capture (router.go): segmentOffset, capture, index, size and trimVerb; a slice out of
--   range is an error here, and a panic in Go.
-- * Fields (router.go): appendPathToFieldDescriptors, resolvePathToFieldDescriptors and
--   resolveFieldDescriptorsToPath, over an interface (Fields/Descriptors) of what the source asks
--   of protoreflect. The loop runs on the length of the path as fuel, one byte or more a round.
-- * Route/Target (router.go, encoding.go): makeTarget, checkStreamType and addRoute, which parses the
--   template of a rule, resolves its field paths and inserts the target into the trie.
-- * Methods (method.go): procedureFromSelector and resolveMethods, which adds the routes of all rules,
--   and methodFromSpec over an interface of descriptors and registries.
-- * Compression (compression.go): newCompressors, negotiate and the Close of a decompressed body. A
--   compressor is a parameter with its name.
-- * Status (errors.go, httprule.go, forward.go): asConnectError, wrapError, forwardError, the tables of
--   status codes, httpWriteError and httpErrorFromResponse. The codec, the search of a chain of
--   errors and the texts of the standard library are parameters.
-- * Server (stream_handler.go, forward.go): setMetadataHeaders, copyHeader and the sending side of
--   serverStream, whose response is recorded in its state: SendHeaders, Send, flushHeaders, close.
-- * Serve (vanguard.go, encoding.go): ServeHTTP, up to the call of the handler and from its end on,
--   and restDecodeTimeout over an interface of floats.
-- * Receive (stream_handler.go): Receive, openBody, hasBody and decodeError of serverStream, over what
--   the connection gives in each call.
-- * Number (params.go): isJSONNumber, and the integers that unmarshalInt and unmarshalUint read.
-- * Params (params.go): the values of fields as parameters, setParameter and getParameter. The library
--   of protobuf is an interface: messages, and the codecs of JSON and base64. Values nest at most
--   twice, in a wrapper, so that the depth of 2 is enough.
-- * Query (encoding.go): queryValues and the query that a client writes.
-- * Client (stream_client.go): clientStream. Every call is a step on its state, and the return of the
--   HTTP client another, so that a theorem on all sequences of steps covers their orders.
-- * Encode (httprule.go): httpSplitVar and httpEncodePathValues. The populated fields of a message are
--   a tree, so that the recursion into messages is structural.
-- * Forward (forward.go): forward and its two loops, over what the streams give in every round,
--   and the methods that Forward and ForwardService make.
-- * Transport (vanguard.go): the options, Mount, NewTransport, NewClientStream and resolveMethod. The
--   cache of a transport is a map in its state; calls that race load and store in any order.
-- * Bodies (encoding.go): walkBodyFields, decodeBody, encodeBody, setBodyHTTPBody, bodyContentType
--   and readChunk, over a codec. Receive/Url (encoding.go): decodeRequestURL.
-- * Prelude (shared): bytes, lists, maps as association lists, results and the lemmas on them.
--   A Go map that is only looked up has no visible order.
--
-- How they interact: Methods calls addRoute of Route/Target, that calls Template, Fields and the
-- insertion of Route/Trie. A request goes through Serve, which calls match of Route/Trie and
-- negotiate of Compression, answers errors by Status, and gives the handler a stream, whose two
-- sides are Receive and Server; the variables of its target read the path by Route/Capture. A client's
-- stream sends the URL that Encode writes from the values of Params; Receive/Url decodes it with these
-- variables and with Query. Bodies go through the codec, or verbatim, by Bodies. Transport and its
-- counterpart Mount choose the routes by Methods.
--
-- An error is its data; its message is kept only where a reply carries it. Numbers are natural numbers: positions and
-- lengths stay below the length of a string in memory, so no sum of them overflows; an RPC code is
-- cut to 32 bits where the source converts it, and an integer of a message has the limits of its
-- 32 or 64 bits.
--
-- Not modelled: the JSON codec and the other wrappers of protojson, reflection over descriptors,
-- which are calls of libraries; the fallback order of type_resolver.go, over such calls; net/http.
-- Nor is the gRPC bridge, which wraps the streams of grpc-go; nothing here rests on it.
mod Prelude
pub mod Escape
pub mod Segment
pub mod Template
pub mod Route
pub mod Fields
pub mod Methods
pub mod Compression
pub mod Status
pub mod Server
pub mod Serve
pub mod Bodies
pub mod Receive
pub mod Number
pub mod Params
pub mod Query
pub mod Client
pub mod Encode
pub mod Forward
pub mod Transport
