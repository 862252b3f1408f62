-- ===== src/Transport/Lifecycle.antt =====
-- How the HTTP transports of framework/transport start and stop, which streamable.go and sse.go write
-- alike. What net/http does is a parameter.
use custom_mcps.Prelude.{
  ℕ, String, ◌&&◌, not, Option, none, some, List, Outcome, returns, panics, ◌==◌, if◌then◌else◌,
  ◌≡◌,
}
use custom_mcps.Prelude.Maps.{get}
use custom_mcps.Http.{HttpRequest}
use custom_mcps.Protocol.Errors.{GoError, wrap}
use custom_mcps.Middleware.{chain}
use custom_mcps.Transport.Streamable.{State}

-- An HTTP handler with what it acts on: the id that a new session would draw, the number of its
-- connection, and the state.
abbrev pub Handler : Type 0
Handler = HttpRequest → String → ℕ → State → State

-- `http.Server`; the timeout is in seconds.
pub record HttpServer : Type 0 where
  pub addr : String
  pub handler : Handler
  pub read_header_timeout : ℕ

-- Which of the two calls serves.
pub data Listening : Type 0 where
  listen_and_serve : Listening
  listen_and_serve_tls : (cert key : String) → Listening

-- What the call returns: the server was closed, or an error.
pub data Ended : Type 0 where
  server_closed : Ended
  serving_failed : GoError → Ended

-- What `Start` is woken by: the context, or the end of the goroutine that serves.
pub data Woken : Type 0 where
  context_done : Woken
  serving_ended : Ended → Woken

-- net/http: a mux of registered patterns, where a registration may panic; what wakes `Start`; and
-- what `Shutdown` returns.
pub record Net : Type 0 where
  pub mux : List (String × Handler) → Outcome Handler
  pub wakes : Listening → HttpServer → Woken
  pub shutdown : HttpServer → Option GoError

unfoldable pub listening : (cert key : String) → Listening
listening cert key =
    if not (cert == "") && not (key == "") then listen_and_serve_tls cert key else listen_and_serve

-- The loop over the middlewares, from the last one down.
abbrev pub behind_middlewares : List (Handler → Handler) → Outcome Handler → Outcome Handler
behind_middlewares mws (panics p) = panics p
behind_middlewares mws (returns h) = returns (chain mws h)

abbrev pub http_server : String → Handler → HttpServer
http_server addr h = record { addr = addr; handler = h; read_header_timeout = 10 }

abbrev pub shut_down : Option GoError → Option GoError
shut_down none = none
shut_down (some e) = some (wrap "shutting down server: " e)

-- `Close`: nothing to do before `Start` has made a server.
unfoldable pub close : Net → Option HttpServer → Option GoError
close net none = none
close net (some server) = shut_down (net.shutdown server)

-- The error channel: a closed server sends nothing, and receiving from the closed channel gives nil.
abbrev pub received : Ended → Option GoError
received server_closed = none
received (serving_failed e) = some e

-- The `select` at the end of `Start`.
abbrev pub await : Woken → Option GoError → Option GoError
await context_done closed = closed
await (serving_ended e) closed = received e

-- The server runs until `Start` is woken.
abbrev pub serve_until : Net → (addr cert key : String) → Outcome Handler → Outcome (Option GoError)
serve_until net addr cert key (panics p) = panics p
serve_until net addr cert key (returns h) =
    let server = http_server addr h in
    returns (await (net.wakes (listening cert key) server) (close net (some server)))

-- `http.ServeMux`, for patterns that are plain paths: a request for a registered path goes to the
-- handler that was registered for it.
abbrev pub Dispatches : List (String × Handler) → Handler → Type 0
Dispatches routes h = (r : HttpRequest) (g : Handler) → get r.path routes ≡ some g → h r ≡ g r
