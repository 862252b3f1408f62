-- ===== src/Transport/Sse/Start.antt =====
-- framework/transport/sse.go: `Start` and `Close`.
use custom_mcps.Prelude.{String, Option, List, [], ◌∷◌, Outcome, ◌==◌, if◌then◌else◌}
use custom_mcps.Context.{Context}
use custom_mcps.Auth.{Env}
use custom_mcps.World.{MessageHandler}
use custom_mcps.Protocol.Errors.{GoError}
use custom_mcps.Transport.Lifecycle
use custom_mcps.Transport.Lifecycle.{Handler, HttpServer, Net, behind_middlewares, serve_until}
use custom_mcps.Transport.Streamable.{health}
use custom_mcps.Transport.Sse.{SseTransport, serve_sse, serve_messages}

-- The handlers that are registered.
abbrev pub sse_handler : SseTransport Handler → Env → Context → Handler
sse_handler t env ctx r fresh conn st = serve_sse t env ctx r fresh conn st

abbrev pub messages_handler : SseTransport Handler → Env → Context → MessageHandler → Handler
messages_handler t env ctx handler r fresh conn st = serve_messages t env ctx r handler st

abbrev pub health_handler : Handler
health_handler r fresh conn st = record st { writer = health st.writer }

module _ (net : Net) (t : SseTransport Handler) (env : Env) (ctx : Context)
    (handler : MessageHandler) where
  -- An empty health path registers nothing.
  unfoldable pub routes : List (String × Handler)
  routes =
      (t.sse_endpoint, sse_handler t env ctx)
      ∷ (t.msg_endpoint, messages_handler t env ctx handler)
      ∷ (if t.health_path == "" then [] else (t.health_path, health_handler) ∷ [])

  unfoldable pub http_handler : Outcome Handler
  http_handler = behind_middlewares t.http_mws (net.mux routes)

  unfoldable pub start : Outcome (Option GoError)
  start = serve_until net t.addr t.tls_cert t.tls_key http_handler

abbrev pub close : Net → Option HttpServer → Option GoError
close = Lifecycle.close
