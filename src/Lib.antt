-- ===== src/Lib.antt =====
-- Verification of the ConfigCat Proxy, a server that evaluates feature flags for its clients, with
-- one ConfigCat SDK client for each SDK id.
--
-- The parts of the program and how they interact. The configuration comes from a file and the
-- environment, is completed with defaults and validated (config/). A registrar holds the SDK
-- clients: with a remote proxy profile it fetches the profile, or reads it from a cache, and brings
-- its clients in line with it (sdk/sdk_auto_registrar.go), and publishes the ids that it changed
-- (pubsub/publisher.go). A stream server follows these ids and keeps one stream for each SDK
-- (stream/server.go): an event loop with channels of connections that share a flag and a user, and
-- that are sent what changes (stream/stream.go). A client evaluates flags with the ConfigCat SDK,
-- on a configuration that a store keeps (sdk/sdk.go, sdk/store/). The handlers of the API, OFREP,
-- the CDN proxy, the webhook and SSE (web/) and the gRPC service (grpc/) look up a client or a
-- stream by SDK id or SDK key; the router wraps the HTTP handlers for CORS and authentication
-- (web/mware/). The status reporter collects what the components report (diag/status/).
--
-- The files.
--   Base, Base/*: names of the libraries, Boolean tests, Go's integers, results and maps.
--   Utils: Except, DedupStringSlice, Uint64ToBytes and GenerateEtag of internal/utils/utils.go.
--   Model: model/user_attrs.go (UserAttrs, MergeUserAttrs, unmarshalFrom), model/eval.go and
--     model/auto_config.go; Model/Discriminator: Discriminator, on 64-bit numbers with their
--     wrap-around.
--   Config/Types: the structs of config/config.go. Config/Defaults: setDefaults. Config/Fixup: the
--     fixup functions and compileOriginRegexes. Config/Validate: config/validate.go, with the
--     lemmas on its parts in Validate/Parts. Config/Env with Env/Structs and Env/Servers:
--     config/env.go, one reader for each struct, with the variables of a listed SDK in Env/Sdk.
--     Config/Load: LoadConfigFromFileAndEnvironment.
--   Registrar: the state of the auto registrar and deleteSdkClients, addSdkClients,
--     resetSdkClients; Registrar/Refresh: refreshConfig; Registrar/Profile: getConfig, fetchConfig,
--     parseConfig, readCache and the cached form. Invariant, Steps and Refresh/Checks, Loops, Adds,
--     KeyChecks and Updates have the lemmas on single steps and on loops; Index and Refresh/Keys
--     are about the map by SDK key; Refresh/Published is about the ids that a refresh publishes;
--     Registrar/Start: newAutoRegistrar and the rounds of run.
--   Pubsub: pubsub/publisher.go.
--   Stream: addConnection, removeConnection and notifyConnections of stream/stream.go, on the
--     channels of Stream/Channels (stream/channel.go); Stream/Reach has the loop as steps,
--     and Stream/Notified what a round of notifyConnections sends.
--     Stream/Server: stream/server.go; its Laws are about one id, its Sync about a whole refresh,
--     and its child System has the registrar and the server together.
--   Sdk: the interfaces Client and Registrar that the handlers take, and the manual registrar of
--     sdk/sdk_registrar.go; Sdk/Clients: sdk/sdk.go; Sdk/Store and Sdk/File: sdk/store/.
--   Web: what the HTTP handlers share, with the lookups of a client in Web/Lookup; Web/Api,
--     Web/Cdn, Web/Webhook, Web/Ofrep and Web/Sse: the handlers of web/api/, web/cdnproxy/,
--     web/webhook/, web/ofrep/ and web/sse/; Web/Router: web/router.go; Web/Examples: data of the
--     examples.
--   Grpc: grpc/flag_service.go, with its values in Grpc/Laws, the API in Grpc/Agreement and the two
--     streams in Grpc/Streams.
--   Status: diag/status/status.go. Mware/Cors and Mware/Auth: web/mware/.
--   A child called Tests has concrete inputs for the theorems of its parent.
--
-- How state is modelled. A Go map is an association list (Base/Dict); where the source ranges over
-- a map, the model takes the order of the list, and the theorems hold for each list. Pointers that
-- are shared are numbers: SDK clients live on a heap, since the registrar's two maps share them; a
-- connection is its identity, and so is a stream in the server's two maps. A handler of a request
-- gives the calls that it makes on the response writer. A handler of a loop is a function from the
-- state to the state, and a sequence of handlers is a reachability relation. A Go error is a value
-- of `Result`. All recursion is on the structure of its input, so there is no fuel. Go's `int` is
-- an integer without bounds: the values are only compared, stored and subtracted far from the ends
-- of the range. A `float64` is its 64 bits.
--
-- Parameters. What an SDK client evaluates, `os.Getenv` and the converters on `strconv` and
-- `encoding/json`, `regexp.Compile` and `MatchString`, the printing and parsing of JSON, the
-- answers of the caches, the HTTP client and the file system, the cache format of the ConfigCat
-- SDK, the clock with its format, hashes, HMAC and base64, and the functions of `strings` are
-- arguments. What a theorem needs of them is a hypothesis, such as that the empty text is no JSON.
--
-- Not modelled. The watchers of files, the Redis, MongoDB and DynamoDB clients, the gRPC
-- interceptors and generated code, the matching of patterns by `net/http`, compression, telemetry,
-- logging and `main`: these are I/O or calls of third-party packages. Inside the modelled parts,
-- the buffers of Go channels, tickers, tracing and logging.
pub mod Base
pub mod Utils
pub mod Model
pub mod Config
pub mod Registrar
pub mod Stream
pub mod Status
pub mod Mware
pub mod Pubsub
pub mod Sdk
pub mod Web
pub mod Grpc
