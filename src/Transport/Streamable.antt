-- ===== src/Transport/Streamable.antt =====
-- framework/transport/streamable.go: the handlers of the streamable HTTP endpoint.
pub mod Laws
pub mod Metered
pub mod Start
use custom_mcps.Prelude.{
  ℕ, zero, suc, String, Bool, true, false, Option, none, some, List, [], ◌∷◌, ◌++◌, Outcome,
  returns, panics, ◌==◌, if◌then◌else◌,
}
use custom_mcps.Json.{Raw, absent, malformed, encoded, Json, object, member, end, text}
use custom_mcps.Context.{Context}
use custom_mcps.Http.{
  HttpRequest, Writer, header, set_header, write_header, write, http_error, document, line,
}
use custom_mcps.Auth.{Env, Authenticator}
use custom_mcps.World.{World, MessageHandler, now}
use custom_mcps.Transport.Session.{
  Manager, Session, create, get_session, delete_session, add_writer, cleanup, update, load,
  empty_manager, broadcast,
}

-- The configuration that `NewStreamableHTTP` builds; the authenticator is an interface that may be
-- nil. `H` is the type of HTTP handlers.
pub record StreamableTransport (H : Type 0) : Type 0 where
  pub addr : String
  pub endpoint : String
  pub auth : Option Authenticator
  pub http_mws : List (H → H)
  pub tls_cert : String
  pub tls_key : String
  pub health_path : String

abbrev pub StreamableOption : Type 0 → Type 0
StreamableOption H = StreamableTransport H → StreamableTransport H

module _ {H : Type 0} where
  abbrev pub with_addr : String → StreamableOption H
  with_addr addr t = record t { addr = addr }

  abbrev pub with_endpoint : String → StreamableOption H
  with_endpoint endpoint t = record t { endpoint = endpoint }

  abbrev pub with_streamable_auth : Authenticator → StreamableOption H
  with_streamable_auth a t = record t { auth = some a }

  abbrev pub with_streamable_http_middleware : List (H → H) → StreamableOption H
  with_streamable_http_middleware mws t = record t { http_mws = t.http_mws ++ mws }

  abbrev pub with_streamable_tls : String → String → StreamableOption H
  with_streamable_tls cert key t = record t { tls_cert = cert; tls_key = key }

  abbrev pub with_health_path : String → StreamableOption H
  with_health_path path t = record t { health_path = path }

  abbrev pub apply_options :
      List (StreamableOption H) → StreamableTransport H → StreamableTransport H
  apply_options [] t = t
  apply_options (opt ∷ opts) t = apply_options opts (opt t)

  unfoldable pub new_streamable_http : List (StreamableOption H) → StreamableTransport H
  new_streamable_http opts = apply_options opts (record {
    addr = ":8080";
    endpoint = "/mcp";
    auth = none;
    http_mws = [];
    tls_cert = "";
    tls_key = "";
    health_path = "/health";
  })

-- What a request acts on: the session manager, the server's world, and its response.
pub record State : Type 0 where
  pub manager : Manager
  pub world : World
  pub writer : Writer

module _ {H : Type 0} (t : StreamableTransport H) (env : Env) (ctx : Context)
    (r : HttpRequest) where
  -- `authenticate`: the context to go on with, or `none` where a response has been written.
  unfoldable pub authenticate : Writer → Writer × Option Context
  authenticate w = elim t.auth [
    | none ↦ (w, some ctx)
    | some a ↦ elim (a env ctx r).1 [
      | none ↦ (w, some (a env ctx r).0)
      | some e ↦ (http_error "Unauthorized" 401 w, none)
    ]
  ]

-- The session of the header, or a new one under the id `fresh` that is drawn for it.
unfoldable pub post_session : (fresh header_id : String) → ℕ → Manager → ℕ × Manager
post_session fresh header_id now m =
    if header_id == ""
    then create fresh now m
    else elim (get_session header_id m) [ some p ↦ (p, m) | none ↦ create fresh now m ]

abbrev pub session_id : ℕ → Manager → String
session_id p m = elim (load p m.heap) [ some s ↦ s.id | none ↦ "" ]

-- The response to a POST. Where the handler panics, net/http drops the connection with nothing
-- written.
unfoldable pub write_reply : String → Outcome Raw → Writer → Writer
write_reply sid (panics p) w = w
write_reply sid (returns absent) w = write_header 202 (set_header "Mcp-Session-Id" sid w)
write_reply sid (returns resp) w = write (document resp) (
    write_header 200
      (set_header "Content-Type" "application/json" (set_header "Mcp-Session-Id" sid w)))

-- The message handler runs, and its reply is written under the id of the session.
abbrev pub post_in : MessageHandler → Context → Raw → State → ℕ × Manager → State
post_in handler ctx raw st (p, m) =
    let (w, out) = handler ctx raw st.world in
    record { manager = m; world = w; writer = write_reply (session_id p m) out st.writer }

-- The time of a new session is read from the clock.
abbrev pub post_with : String → String → MessageHandler → Context → Raw → State → State
post_with fresh header_id handler ctx raw st =
    post_in handler ctx raw st (post_session fresh header_id (now st.world) st.manager)

-- The body is read before the session is looked up.
abbrev pub post_body : String → String → MessageHandler → Context → Option Raw → State → State
post_body fresh header_id handler ctx none st = record st {
  writer = http_error "Failed to read body" 400 st.writer;
}
post_body fresh header_id handler ctx (some raw) st = post_with fresh header_id handler ctx raw st

abbrev pub open_stream : ℕ → Option ℕ → State → State
open_stream conn none st = record st { writer = http_error "Session not found" 404 st.writer }
open_stream conn (some p) st = elim st.writer.can_flush [
  | false ↦ record st { writer = http_error "Streaming not supported" 500 st.writer }
  | true ↦ record st {
    manager = record (st.manager) { heap = update p (add_writer conn) st.manager.heap };
    writer = write_header 200 (
        set_header "Connection" "keep-alive" (
          set_header "Cache-Control" "no-cache"
            (set_header "Content-Type" "text/event-stream" st.writer)));
  }
]

-- The end of a stream, where `handleGet` returns: the writer is closed, and the session stays.
unfoldable pub leave_stream : (p conn : ℕ) → State → State
leave_stream p conn st = record st {
  manager = record (st.manager) { heap = update p (cleanup conn) st.manager.heap };
}

-- A handler goes on only if `authenticate` gave a context.
abbrev pub after_auth : State → (Writer → Context → State) → Writer × Option Context → State
after_auth st go_on (w, none) = record st { writer = w }
after_auth st go_on (w, some auth_ctx) = go_on w auth_ctx

module _ {H : Type 0} (t : StreamableTransport H) (env : Env) (ctx : Context)
    (r : HttpRequest) where
  -- What follows a successful `authenticate`.
  abbrev pub post_on : String → MessageHandler → State → Writer → Context → State
  post_on fresh handler st w auth_ctx =
      post_body fresh (header "Mcp-Session-Id" r) handler auth_ctx r.body (record st { writer = w })

  abbrev pub get_on : ℕ → State → Writer → Context → State
  get_on conn st w auth_ctx =
      if header "Mcp-Session-Id" r == ""
      then record st { writer = http_error "Missing Mcp-Session-Id header" 400 w }
      else open_stream conn (get_session (header "Mcp-Session-Id" r) st.manager)
          (record st { writer = w })

  -- `fresh` is the random session id that `Create` would draw.
  unfoldable pub handle_post : (fresh : String) → MessageHandler → State → State
  handle_post fresh handler st =
      after_auth st (post_on fresh handler st) (authenticate t env ctx r st.writer)

  -- Up to the point where the stream is open and the handler waits.
  unfoldable pub handle_get : (conn : ℕ) → State → State
  handle_get conn st = after_auth st (get_on conn st) (authenticate t env ctx r st.writer)

  unfoldable pub handle_delete : State → State
  handle_delete st =
      if header "Mcp-Session-Id" r == ""
      then record st { writer = http_error "Missing Mcp-Session-Id header" 400 st.writer }
      else elim (get_session (header "Mcp-Session-Id" r) st.manager) [
        | none ↦ record st { writer = http_error "Session not found" 404 st.writer }
        | some p ↦ record st {
          manager = delete_session (header "Mcp-Session-Id" r) st.manager;
          writer = write_header 204 st.writer;
        }
      ]

  -- The endpoint's switch on the method.
  unfoldable pub serve : (fresh : String) (conn : ℕ) → MessageHandler → State → State
  serve fresh conn handler st =
      if r.method == "POST"
      then handle_post fresh handler st
      else if r.method == "GET"
      then handle_get conn st
      else if r.method == "DELETE"
      then handle_delete st
      else record st { writer = http_error "Method not allowed" 405 st.writer }

-- `Send`
abbrev pub send : Raw → Manager → Manager
send = broadcast

-- The health endpoint.
unfoldable pub health : Writer → Writer
health w =
    write (document (encoded (object (member "status" (text "ok") end))))
      (write_header 200 (set_header "Content-Type" "application/json" w))
