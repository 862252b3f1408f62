-- ===== src/Lib.antt =====
-- A model of the MCP server framework and of the Cloudflare DNS server built on it.
--
-- The program. A server (framework/server) registers tools, resources and prompts
-- (framework/registry), and hands its transport (framework/transport) one message handler: the
-- router, wrapped in middleware (framework/middleware). The transport reads JSON-RPC messages
-- (framework/protocol), from lines of the standard input or from HTTP requests, authenticates them
-- (framework/auth) and writes the responses. cmd/servers/cloudflare puts such a server together.
--
-- Which file models what.
-- Prelude: shared names, lists, maps (an association list with each key once), Go's results and
--   panics, integers, and the functions of Go's package strings, over the characters of a text.
-- Json, Json.Decode, Json.Numerals: encoding/json over parsed documents. A json.RawMessage is nil,
--   bytes that do not parse, or a document; field names are matched up to case, later members count, and null leaves
--   plain fields alone, as in the library. What the library reads into an `any` is a parameter.
--   Json.Numerals says which number literals are whole.
-- Context, Http, World: contexts, requests and response writers, and the state that a message
--   handler acts on: the flag initialized, the log, and the readings of the clock.
-- Protocol.Errors, Protocol.Message, Protocol.Payloads: framework/protocol. NewResponse is
--   new_response, ParseMessage is parse_message, and so on. Protocol.Parse has its theorems.
-- Library: what is taken from Go's standard library as a parameter: strconv.ParseFloat, the quoted
--   text of %q and the text of json.MarshalIndent. Prelude.Float does so for float64.
-- Schema, Schema.Tags, Schema.Generate: framework/schema. JSONSchema is JsonSchema with its fields
--   that hold no schema in Keywords; reflection is a description of Go types (GoType), each finite,
--   so the recursion of processStructFields and schemaFromType is structural. Schema.Validate says
--   which documents a schema allows; no code does this, it is what a client reads in a schema.
-- Registry: framework/registry. GoRuntime is what Go leaves open: the order in which `range` goes
--   over a map, any permutation, and what encoding/json reads into an `any`.
--   Registry.Typed: RegisterTool, over a description of the input struct with its decoder.
--   Registry.Trace: sequences of registrations.
-- Middleware: Chain, ChainHTTP, Recovery and Logging of framework/middleware; Middleware.Cors: CORS;
--   Middleware.RateLimit: the token buckets, with float64 and net.SplitHostPort as parameters, and
--   in its children Tokens and Refill a bucket of whole tokens, for requests at whole seconds;
--   Middleware.Metrics: the collector, whose int64 counters are bit patterns that wrap at 2 ^ 64.
-- Server, Server.Options, Server.Dispatch, Server.Run, Server.Typed: framework/server, with
--   Server.Run.Safety and Server.Run.Logged for the handler that transports call. The method
--   handlers keep their names, handleToolsCall as handle_tools_call. The server's type is generic in
--   the transport and in the HTTP handlers, which it only stores.
-- Auth: framework/auth. An authenticator is a function of the environment, context and request.
-- Transport.Session: framework/transport/session.go. Sessions live on a heap, since a handler may
--   hold a session that another request deletes. Transport.Session.Locks has the lock regions of the
--   operations, for interleavings finer than an operation; Transport.Session.Everyone is about
--   Broadcast.
-- Transport.Streamable, Transport.Stdio, Transport.Sse: framework/transport/streamable.go, stdio.go
--   and sse.go. Their children Start, and Transport.Lifecycle, have Start and Close.
-- EndToEnd: the transports with the handler that Run of framework/server/server.go gives them.
-- Cloudflare: config.go and main.go of cmd/servers/cloudflare, with Cloudflare.Run for the end of
--   run and the exit status of main. Cloudflare.Inputs, Cloudflare.Tools: tools.go.
--   Cloudflare.Published has the schemas of the three tools written out, Cloudflare.Served the
--   server that run serves, Cloudflare.Conforming, Cloudflare.Calls and Cloudflare.Refused the
--   arguments that fit a schema and the calls with them. That ParseFloat reads the numerals of the tags is a hypothesis.
-- Tests: tests, and the theorems at concrete inputs.
--
-- How the model stands to the code. User code (handlers of tools, resources and prompts) is a
-- function of the context and the parameters that returns a result, returns an error, or panics; it
-- does not change the server. A Go error is an RPC error, a wrapped error, or a text. Random session
-- ids and connections are arguments. An operation on sessions is one step, but for Delete and
-- Broadcast in Transport.Session.Locks, where each of the locks that they take is one. A panic inside
-- an HTTP request ends it with nothing written. The input of stdio is what bufio.Scanner makes of it,
-- a list of lines and errors, and each Write to the output fails or not as the environment says; the
-- chunks of an output are those whose Write succeeded. net/http's mux, and what wakes and what ends a
-- started transport, are parameters. No fuel is needed: every loop runs over a list, or a finite tree
-- of types.
--
-- Not modelled: the bytes of JSON documents, net/http's server, mux and shutdown, TLS, the scanner,
-- the log's output, HTTP handlers that panic below the HTTP middleware, and Go types that refer to
-- themselves.
pub mod Prelude
pub mod Json
pub mod Context
pub mod Http
pub mod Auth
pub mod World
pub mod Library
pub mod Schema
pub mod Registry
pub mod Middleware
pub mod Server
pub mod Transport
pub mod EndToEnd
pub mod Cloudflare
pub mod Protocol
mod Tests
