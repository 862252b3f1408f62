-- ===== src/Tests/Streamable.antt =====
-- The streamable transport at concrete inputs.
use custom_mcps.Transport.Streamable
use custom_mcps.Tests.RateLimit.{whole}
use custom_mcps.Middleware.Metrics.{metrics, empty_collector}
use custom_mcps.Transport.Streamable.Metered.{stream_handler, metered_stream_refused}
use custom_mcps.Prelude.{
  ok, true, none, some, [], ◌∷◌, returns, ◌≡◌, ◌≢◌, refl, arith, ◌==◌, if◌then◌else◌, eq_iff,
}
use custom_mcps.Prelude.Int.{pos}
use custom_mcps.Json.{integer, null, text, encoded}
use custom_mcps.Prelude.Maps.{get, put}
use custom_mcps.Prelude.Text.{strip_prefix}
use custom_mcps.Http.{HttpRequest, header, fresh_writer, http_error, write_header, line}
use custom_mcps.World.{MessageHandler}
use custom_mcps.Auth.{Env, bearer_with_tokens, authenticate, extract_token, missing_token}
use custom_mcps.Transport.Session.{get_session, delete_session}
use custom_mcps.Transport.Streamable.{StreamableTransport, State, handle_post, handle_get, serve}
use custom_mcps.Transport.Streamable.Laws.{unauthorized, delete_any, post_known, Replies}
use custom_mcps.Cloudflare.{build_server, streamable, http_mode_unprotected}
use custom_mcps.Tests.Transport.{
  nowhere, world, no_env, guard, ask, without_token, one_session, one_session-IsFiled,
}

abbrev open_transport : StreamableTransport (Unit {0})
open_transport = record {
  addr = ":8080";
  endpoint = "/mcp";
  auth = none;
  http_mws = [];
  tls_cert = "";
  tls_key = "";
  health_path = "/health";
}

abbrev guarded_transport : StreamableTransport (Unit {0})
guarded_transport = record open_transport { auth = some (authenticate guard) }

abbrev state : State
state = record { manager = one_session; world = world; writer = fresh_writer true }

-- A handler that answers each message with a text.
abbrev echo : MessageHandler
echo ctx raw w = (w, returns (encoded (text "ok")))

refused : (authenticate guard no_env nowhere without_token).1 ≡ some missing_token
unfolding authenticate extract_token strip_prefix get
refused = refl

unauthorized_example :
    (handle_post guarded_transport no_env nowhere without_token "f" echo state
      ≡ record state { writer = http_error "Unauthorized" 401 (fresh_writer true) })
    × (handle_get guarded_transport no_env nowhere without_token 1 state
        ≡ record state { writer = http_error "Unauthorized" 401 (fresh_writer true) })
unauthorized_example =
    unauthorized guarded_transport no_env nowhere without_token (authenticate guard) missing_token
      "f" 1 echo state refl refused

abbrev delete_request : HttpRequest
delete_request = ask "DELETE" (("Mcp-Session-Id", "s") ∷ [])

abbrev post_request : HttpRequest
post_request = ask "POST" (("Mcp-Session-Id", "s") ∷ [])

s_given : header "Mcp-Session-Id" post_request ≢ ""
unfolding header get
s_given = ground (arith, eq_iff "s" "")

s_deleted : header "Mcp-Session-Id" delete_request ≢ ""
unfolding header get
s_deleted = ground (arith, eq_iff "s" "")

s_found : get_session (header "Mcp-Session-Id" post_request) one_session ≡ some 0
unfolding header get get_session
s_found = refl

s_found_for_deletion : get_session (header "Mcp-Session-Id" delete_request) one_session ≡ some 0
unfolding header get get_session
s_found_for_deletion = refl

-- The transport has an authenticator, and the request no token.
delete_any_example :
    serve guarded_transport no_env nowhere delete_request "f" 1 echo state ≡ record state {
      manager = delete_session (header "Mcp-Session-Id" delete_request) one_session;
      writer = write_header 204 (fresh_writer true);
    }
delete_any_example =
    delete_any guarded_transport no_env nowhere delete_request 0 "f" 1 echo state refl s_deleted
      s_found_for_deletion

post_known_example :
    Replies
      (header "Mcp-Session-Id" post_request)
      state
      (echo nowhere (encoded null) world)
      one_session
      (handle_post open_transport no_env nowhere post_request "f" echo state)
post_known_example =
    post_known open_transport no_env nowhere post_request (encoded null) "f" 0 echo state
      one_session-IsFiled refl refl refl s_given s_found

abbrev http_env : Env
http_env name = if name == "CF_TRANSPORT" then "http" else "secret"

secret_set : http_env "CF_MCP_TOKEN" ≢ ""
secret_set = ground (arith, eq_iff "secret" "")

http_mode_unprotected_example :
    (t : StreamableTransport (Unit {0})) × ((build_server {H = Unit {0}} http_env).transport
      ≡ some (streamable t))
    × ((build_server {H = Unit {0}} http_env).auth
        ≡ authenticate (bearer_with_tokens ("secret" ∷ [])))
    × (Streamable.authenticate t no_env nowhere without_token (fresh_writer true)
        ≡ (fresh_writer true, some nowhere))
http_mode_unprotected_example =
    http_mode_unprotected http_env no_env nowhere without_token (fresh_writer true) refl secret_set

abbrev get_request : HttpRequest
get_request = ask "GET" (("Mcp-Session-Id", "s") ∷ [])

s_asked : header "Mcp-Session-Id" get_request ≢ ""
unfolding header get
s_asked = ground (arith, eq_iff "s" "")

s_streamed : get_session (header "Mcp-Session-Id" get_request) one_session ≡ some 0
unfolding header get get_session
s_streamed = refl

not_metrics : get_request.path ≢ "/metrics"
not_metrics = ground (arith, eq_iff "/mcp" "/metrics")

metered_stream_refused_example :
    (metrics whole
      (λ n. ok (integer (pos n)))
      "/metrics"
      (stream_handler open_transport no_env nowhere 1 state)
      3
      get_request
      empty_collector
      (fresh_writer true)).1
    ≡ record (fresh_writer true) {
      status = some 500;
      headers =
          ("Content-Type", "text/plain; charset=utf-8")
          ∷ ("X-Content-Type-Options", "nosniff")
          ∷ [];
      body = line "Streaming not supported" ∷ [];
      header_calls = 500 ∷ [];
    }
unfolding put
metered_stream_refused_example =
    metered_stream_refused open_transport no_env nowhere 1 state whole (λ n. ok (integer (pos n)))
      "/metrics" 3 get_request empty_collector 0 (fresh_writer true) refl s_asked s_streamed
      not_metrics refl
