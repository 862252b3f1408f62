-- ===== src/Transport/Sse.antt =====
-- framework/transport/sse.go: the legacy transport, with a stream that a GET opens and messages that
-- are posted to it.
pub mod Laws
pub mod Stay
pub mod Start
use custom_mcps.Prelude.{
  ℕ, String, Bool, true, false, Option, none, some, List, [], ◌∷◌, ◌++◌, Outcome, returns, panics,
  ◌==◌, ◌<>◌, if◌then◌else◌,
}
use custom_mcps.Json.{Json, Raw, absent, malformed, encoded}
use custom_mcps.Context.{Context}
use custom_mcps.Http.{
  HttpRequest, Writer, query_value, set_header, write_header, write, http_error, event,
}
use custom_mcps.Auth.{Env, Authenticator}
use custom_mcps.World.{World, MessageHandler, now, after_reading}
use custom_mcps.Transport.Session.{
  Manager, create, get_session, add_writer, cleanup, write_sse, update, broadcast,
}
use custom_mcps.Transport.Streamable.{State, after_auth}

-- The configuration; `H` is the type of HTTP handlers, and the authenticator may be nil.
pub record SseTransport (H : Type 0) : Type 0 where
  pub addr : String
  pub sse_endpoint : String
  pub msg_endpoint : String
  pub auth : Option Authenticator
  pub http_mws : List (H → H)
  pub tls_cert : String
  pub tls_key : String
  pub health_path : String

abbrev pub SseOption : Type 0 → Type 0
SseOption H = SseTransport H → SseTransport H

module _ {H : Type 0} where
  abbrev pub with_sse_addr : String → SseOption H
  with_sse_addr addr t = record t { addr = addr }

  abbrev pub with_sse_endpoint : String → SseOption H
  with_sse_endpoint endpoint t = record t { sse_endpoint = endpoint }

  abbrev pub with_sse_msg_endpoint : String → SseOption H
  with_sse_msg_endpoint endpoint t = record t { msg_endpoint = endpoint }

  abbrev pub with_sse_auth : Authenticator → SseOption H
  with_sse_auth a t = record t { auth = some a }

  abbrev pub with_sse_http_middleware : List (H → H) → SseOption H
  with_sse_http_middleware mws t = record t { http_mws = t.http_mws ++ mws }

  abbrev pub with_sse_tls : String → String → SseOption H
  with_sse_tls cert key t = record t { tls_cert = cert; tls_key = key }

  abbrev pub with_sse_health_path : String → SseOption H
  with_sse_health_path path t = record t { health_path = path }

  abbrev apply_options : List (SseOption H) → SseTransport H → SseTransport H
  apply_options [] t = t
  apply_options (opt ∷ opts) t = apply_options opts (opt t)

  unfoldable pub new_sse : List (SseOption H) → SseTransport H
  new_sse opts = apply_options opts (record {
    addr = ":8080";
    sse_endpoint = "/sse";
    msg_endpoint = "/messages";
    auth = none;
    http_mws = [];
    tls_cert = "";
    tls_key = "";
    health_path = "/health";
  })

-- `Send`
abbrev pub send : Raw → Manager → Manager
send = broadcast

-- A response that is not nil goes to the session's streams, not to the POST; then the POST is
-- accepted. Where the handler panics, net/http drops the connection with nothing written.
abbrev pub deliver : ℕ → State → World × Outcome Raw → State
deliver p st (w, panics e) = record st { world = w }
deliver p st (w, returns absent) = record st { world = w; writer = write_header 202 st.writer }
deliver p st (w, returns resp) = record st {
  world = w;
  manager = record (st.manager) { heap = update p (write_sse resp) st.manager.heap };
  writer = write_header 202 st.writer;
}

abbrev pub message_body : MessageHandler → Context → ℕ → State → Option Raw → State
message_body handler ctx p st none = record st {
  writer = http_error "Failed to read body" 400 st.writer;
}
message_body handler ctx p st (some raw) = deliver p st (handler ctx raw st.world)

-- The body is read after the session is looked up.
abbrev pub message_for : MessageHandler → Context → Option Raw → State → Option ℕ → State
message_for handler ctx body st none = record st {
  writer = http_error "Session not found" 404 st.writer;
}
message_for handler ctx body st (some p) = message_body handler ctx p st body

-- The answer to a GET up to where the handler waits: the headers, and the event with the URL to post
-- to.
abbrev pub stream_head : String → Writer → Writer
stream_head data_ w = write (event "endpoint" data_) (
    write_header 200 (
      set_header "Connection" "keep-alive"
        (set_header "Cache-Control" "no-cache" (set_header "Content-Type" "text/event-stream" w))))

-- The first half of the answer to a GET: the session that `Create` made is in the table, and its URL
-- is with the client.
abbrev pub announce : (data_ : String) → State → ℕ × Manager → State
announce data_ st (p, m) = record st {
  world = after_reading st.world;
  manager = m;
  writer = stream_head data_ st.writer;
}

-- The second half: the session gets the connection as its writer.
abbrev pub attach_stream : (p conn : ℕ) → State → State
attach_stream p conn st = record st {
  manager = record (st.manager) { heap = update p (add_writer conn) st.manager.heap };
}

abbrev pub stream_to : (conn : ℕ) (data_ : String) → State → ℕ × Manager → State
stream_to conn data_ st (p, m) = attach_stream p conn (announce data_ st (p, m))

-- The writer has to be an `http.Flusher`. `fresh` is the random session id that `Create` draws.
abbrev pub open_if : (flushes : Bool) (fresh : String) (conn : ℕ) (data_ : String) → State → State
open_if false fresh conn data_ st = record st {
  writer = http_error "Streaming not supported" 500 st.writer;
}
open_if true fresh conn data_ st = stream_to conn data_ st (create fresh (now st.world) st.manager)

module _ {H : Type 0} (t : SseTransport H) (env : Env) (ctx : Context) (r : HttpRequest) where
  -- The context to go on with, or `none` where a response has been written.
  unfoldable pub authenticate : Writer → Writer × Option Context
  authenticate w = elim t.auth [
    | none ↦ (w, some ctx)
    | some a ↦ elim (a env ctx r).1 [
      | none ↦ (w, some (a env ctx r).0)
      | some e ↦ (http_error "Unauthorized" 401 w, none)
    ]
  ]

  abbrev pub endpoint_data : String → String
  endpoint_data id = "{\"endpoint\":\"" <> t.msg_endpoint <> "?sessionId=" <> id <> "\"}"

  abbrev pub sse_on : (fresh : String) (conn : ℕ) → State → Writer → Context → State
  sse_on fresh conn st w auth_ctx =
      open_if w.can_flush fresh conn (endpoint_data fresh) (record st { writer = w })

  unfoldable pub handle_sse : (fresh : String) (conn : ℕ) → State → State
  handle_sse fresh conn st = after_auth st (sse_on fresh conn st) (authenticate st.writer)

  abbrev pub messages_on : MessageHandler → State → Writer → Context → State
  messages_on handler st w auth_ctx =
      if query_value "sessionId" r == ""
      then record st { writer = http_error "Missing sessionId query parameter" 400 w }
      else message_for handler auth_ctx r.body (record st { writer = w })
          (get_session (query_value "sessionId" r) st.manager)

  unfoldable pub handle_messages : MessageHandler → State → State
  handle_messages handler st = after_auth st (messages_on handler st) (authenticate st.writer)

  -- The two endpoints that `Start` registers.
  unfoldable pub serve_sse : (fresh : String) (conn : ℕ) → State → State
  serve_sse fresh conn st =
      if r.method == "GET"
      then handle_sse fresh conn st
      else record st { writer = http_error "Method not allowed" 405 st.writer }

  unfoldable pub serve_messages : MessageHandler → State → State
  serve_messages handler st =
      if r.method == "POST"
      then handle_messages handler st
      else record st { writer = http_error "Method not allowed" 405 st.writer }

-- The end of a stream, where `handleSSE` returns: the writer is closed, and the session stays.
unfoldable pub end_stream : (p conn : ℕ) → State → State
end_stream p conn st = record st {
  manager = record (st.manager) { heap = update p (cleanup conn) st.manager.heap };
}
