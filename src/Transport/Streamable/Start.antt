-- ===== src/Transport/Streamable/Start.antt =====
-- framework/transport/streamable.go: `Start`, `Close` and `Addr`.
use custom_mcps.Prelude.{String, Option, none, List, [], ◌∷◌, Outcome, ◌==◌, if◌then◌else◌}
use custom_mcps.Context.{Context}
use custom_mcps.Auth.{Env}
use custom_mcps.World.{MessageHandler}
use custom_mcps.Protocol.Errors.{GoError}
use custom_mcps.Transport.Lifecycle
use custom_mcps.Transport.Lifecycle.{Handler, HttpServer, Net, behind_middlewares, serve_until}
use custom_mcps.Transport.Streamable.{StreamableTransport, serve, health}

-- The two handlers that are registered.
abbrev pub endpoint_handler : StreamableTransport Handler → Env → Context → MessageHandler → Handler
endpoint_handler t env ctx handler r fresh conn st = serve t env ctx r fresh conn handler st

abbrev pub health_handler : Handler
health_handler r fresh conn st = record st { writer = health st.writer }

module _ (net : Net) (t : StreamableTransport Handler) (env : Env) (ctx : Context)
    (handler : MessageHandler) where
  -- An empty health path registers nothing.
  unfoldable pub routes : List (String × Handler)
  routes =
      (t.endpoint, endpoint_handler t env ctx handler)
      ∷ (if t.health_path == "" then [] else (t.health_path, health_handler) ∷ [])

  unfoldable pub http_handler : Outcome Handler
  http_handler = behind_middlewares t.http_mws (net.mux routes)

  unfoldable pub start : Outcome (Option GoError)
  start = serve_until net t.addr t.tls_cert t.tls_key http_handler

abbrev pub close : Net → Option HttpServer → Option GoError
close = Lifecycle.close

-- `Addr` never knows the address.
abbrev pub addr : StreamableTransport Handler → Option String
addr t = none
