-- ===== src/EndToEnd/Streamable.antt =====
-- The streamable endpoint with the server's handler.
use custom_mcps.Prelude.{
  ℕ, String, true, none, some, [], returns, ◌≡◌, refl, sym, ap, ◌∙◌, subst, ◌==◌, Bool, Option,
  if◌then◌else◌, eq_refl,
}
use custom_mcps.Prelude.Maps.{get}
use custom_mcps.Middleware.{chain, wrap_each}
use custom_mcps.Json.{Json, Raw, encoded}
use custom_mcps.Context.{Context}
use custom_mcps.Http.{HttpRequest, Writer, header, set_header, write_header, write, document}
use custom_mcps.Auth.{Env}
use custom_mcps.World.{now}
use custom_mcps.Protocol.Errors.{value}
use custom_mcps.Protocol.Message.{Request, request, parse_message}
use custom_mcps.Registry.{GoRuntime}
use custom_mcps.Server.{Server}
use custom_mcps.Server.Run.{run_handler}
use custom_mcps.Transport.Session.{get_session}
use custom_mcps.Transport.Session.Laws.{IsFiled}
use custom_mcps.Transport.Streamable.{
  StreamableTransport, State, post_session, session_id, write_reply, serve,
}
use custom_mcps.Transport.Streamable.Laws.{served_post, post_session-Filed}
use custom_mcps.Transport.Lifecycle.{Handler, Net, Dispatches, behind_middlewares}
use custom_mcps.Transport.Streamable.Start.{routes, http_handler, endpoint_handler}
use custom_mcps.EndToEnd.{AnswersTo, run_handler-AnswersTo}

-- Status 200 with a document, under the id of a session of the table.
abbrev pub Served : Raw → Writer → State → Type 0
Served resp w st =
    (sid : String) × (p : ℕ) × (get_session sid st.manager ≡ some p)
    × (st.writer
        ≡ write (document resp) (
            write_header 200
              (set_header "Content-Type" "application/json" (set_header "Mcp-Session-Id" sid w))))

written :
    (v : Json) (sid : String) (w : Writer)
    → write_reply sid (returns (encoded v)) w
      ≡ write (document (encoded v)) (
          write_header 200
            (set_header "Content-Type" "application/json" (set_header "Mcp-Session-Id" sid w)))
unfolding write_reply
written v sid w = refl

module _ {H K : Type 0} (t : StreamableTransport H) (env : Env) (ctx : Context) (r : HttpRequest)
    (runtime : GoRuntime) {T : Type 0} (s : Server T K) where
  -- On a transport without an authenticator and a server without user middleware, a POST of a
  -- request is answered 200, whatever session its header names, if any: with a result or an error
  -- under the id of the request, and under the id of a session that the table then has.
  pub post_answered :
      (raw : Raw) (q : Request) (fresh : String) (conn : ℕ) (st : State)
      → IsFiled st.manager
      → t.auth ≡ none
      → s.middlewares ≡ []
      → r.method ≡ "POST"
      → r.body ≡ some raw
      → parse_message runtime.read_any raw ≡ value (request q)
      → (v : Json) × AnswersTo runtime raw (encoded v)
        × Served (encoded v) st.writer (serve t env ctx r fresh conn (run_handler runtime s) st)
  post_answered raw q fresh conn st filed open_ bare method body parsed =
      let (v, replied, answered) = run_handler-AnswersTo runtime s ctx raw st.world q bare parsed in
      let at = post_session fresh (header "Mcp-Session-Id" r) (now st.world) st.manager in
      (
        v,
        answered,
        subst (Served (encoded v) st.writer)
            (sym
              (served_post t env ctx r raw fresh conn (run_handler runtime s) st open_ method body))
            (
              session_id at.0 at.1,
              at.0,
              post_session-Filed fresh (header "Mcp-Session-Id" r) (now st.world) st.manager filed,
              ap (λ o. write_reply (session_id at.0 at.1) o st.writer) replied
                  ∙ written v (session_id at.0 at.1) st.writer,
            ),
      )

module _ (net : Net) {K : Type 0} (t : StreamableTransport Handler) (env : Env) (ctx : Context)
    (r : HttpRequest) (runtime : GoRuntime) {T : Type 0} (s : Server T K) where
  -- What `Start` serves, where the patterns can be registered, the mux dispatches requests for
  -- registered paths, and the transport has no HTTP middleware and no authenticator: for a server
  -- without user middleware, a POST of a request to the endpoint is answered 200, whatever session
  -- its header names, if any, with a result or an error under the id of the request, and under the
  -- id of a session that the table then has.
  pub started-answers :
      (h : Handler) (raw : Raw) (q : Request) (fresh : String) (conn : ℕ) (st : State)
      → net.mux (routes net t env ctx (run_handler runtime s)) ≡ returns h
      → Dispatches (routes net t env ctx (run_handler runtime s)) h
      → IsFiled st.manager
      → t.http_mws ≡ []
      → t.auth ≡ none
      → s.middlewares ≡ []
      → r.path ≡ t.endpoint
      → r.method ≡ "POST"
      → r.body ≡ some raw
      → parse_message runtime.read_any raw ≡ value (request q)
      → (g : Handler) × (http_handler net t env ctx (run_handler runtime s) ≡ returns g)
        × ((v : Json) × AnswersTo runtime raw (encoded v)
            × Served (encoded v) st.writer (g r fresh conn st))
  unfolding http_handler routes get chain wrap_each
  started-answers h raw q fresh conn st registers routed filed plain open_ bare path method body
        parsed =
      let (v, answered, served) =
        post_answered t env ctx r runtime s raw q fresh conn st filed open_ bare method body
          parsed in
      let routed_here =
        ap (λ k. get k (routes net t env ctx (run_handler runtime s))) path
        ∙ endpoint_found (t.endpoint == t.endpoint) _ (eq_refl t.endpoint) in
      (
        h,
        ap (behind_middlewares t.http_mws) registers ∙ ap (λ mws. returns (chain mws h)) plain,
        (
          v,
          answered,
          subst (λ (f : String → ℕ → State → State). Served (encoded v) st.writer (f fresh conn st))
              (sym (routed r (endpoint_handler t env ctx (run_handler runtime s)) routed_here))
              served,
        ),
      )
    where
      endpoint_found :
          (b : Bool) (rest : Option Handler)
          → b ≡ true
          → (if b then some (endpoint_handler t env ctx (run_handler runtime s)) else rest)
            ≡ some (endpoint_handler t env ctx (run_handler runtime s))
      endpoint_found b rest e = rw e
