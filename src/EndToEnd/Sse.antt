-- ===== src/EndToEnd/Sse.antt =====
-- The legacy transport with the server's handler.
use custom_mcps.Prelude.{ℕ, String, true, none, some, [], ◌≡◌, ◌≢◌}
use custom_mcps.Json.{Json, Raw, encoded}
use custom_mcps.Context.{Context}
use custom_mcps.Http.{HttpRequest, Writer, query_value}
use custom_mcps.Auth.{Env}
use custom_mcps.World.{now}
use custom_mcps.Protocol.Errors.{value}
use custom_mcps.Protocol.Message.{Request, request, parse_message}
use custom_mcps.Registry.{GoRuntime}
use custom_mcps.Server.{Server}
use custom_mcps.Server.Run.{run_handler}
use custom_mcps.Transport.Streamable.{State}
use custom_mcps.Transport.Sse.{SseTransport, handle_sse, handle_messages}
use custom_mcps.Transport.Sse.Laws.{Delivered, sse_round_trip}
use custom_mcps.EndToEnd.{AnswersTo, run_handler-AnswersTo}

module _ {H K : Type 0} (t : SseTransport H) (env : Env) (ctx : Context) (runtime : GoRuntime)
    {T : Type 0} (s : Server T K) where
  -- On a transport without an authenticator and a server without user middleware: a GET opens a
  -- stream under a fresh id, and the first request that is posted with that id is answered 202 and
  -- gets, as the one event of that stream, a result or an error under its own id.
  pub sse_request_answered :
      (get_ post : HttpRequest) (fresh : String) (conn : ℕ) (st : State) (w : Writer) (raw : Raw)
      (q : Request)
      → t.auth ≡ none
      → s.middlewares ≡ []
      → st.writer.can_flush ≡ true
      → query_value "sessionId" post ≢ ""
      → query_value "sessionId" post ≡ fresh
      → post.body ≡ some raw
      → parse_message runtime.read_any raw ≡ value (request q)
      → (v : Json) × AnswersTo runtime raw (encoded v)
        × Delivered fresh conn (now st.world) v w (
            handle_messages t env ctx post
              (run_handler runtime s)
              (record (handle_sse t env ctx get_ fresh conn st) { writer = w }))
  sse_request_answered get_ post fresh conn st w raw q open_ bare flushes given named body parsed =
      let (v, replies, answered) =
        run_handler-AnswersTo runtime s ctx raw (handle_sse t env ctx get_ fresh conn st).world q
          bare parsed in
      (
        v,
        answered,
        sse_round_trip t env ctx get_ post fresh conn (run_handler runtime s) st w raw v open_
            flushes given named body replies,
      )
