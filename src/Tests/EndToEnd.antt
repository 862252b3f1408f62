-- ===== src/Tests/EndToEnd.antt =====
-- The transports with the server's handler, at concrete inputs.
use custom_mcps.Prelude.{
  String, true, false, Option, none, some, List, [], ◌∷◌, ◌++◌, map, returns, ◌≡◌, ◌≢◌, refl, ap,
  arith, eq_iff,
}
use custom_mcps.Prelude.Maps.{get}
use custom_mcps.Json.{Json, text, Raw, encoded}
use custom_mcps.Http.{HttpRequest, fresh_writer, query_value, http_error}
use custom_mcps.Auth.{Env}
use custom_mcps.Server.Run.{run_handler}
use custom_mcps.Transport.Lifecycle.{Handler, Net, Dispatches, context_done}
use custom_mcps.Transport.Session.{empty_manager}
use custom_mcps.Transport.Streamable.{State, StreamableTransport, new_streamable_http}
use custom_mcps.Transport.Streamable.Start.{routes, http_handler}
use custom_mcps.Transport.Sse.{SseTransport, new_sse, handle_sse, handle_messages}
use custom_mcps.Transport.Sse.Laws.{Delivered}
use custom_mcps.Transport.Stdio.{Event, line, read_error, Output, finished, failed, start}
use custom_mcps.Transport.Stdio.Laws.{as_lines, Pairwise}
use custom_mcps.EndToEnd.{AnswersTo}
use custom_mcps.EndToEnd.Stdio.{start-run_handler, start-AnswersTo}
use custom_mcps.EndToEnd.Streamable.{started-answers, Served}
use custom_mcps.EndToEnd.Sse.{sse_request_answered}
use custom_mcps.Tests.Server.{
  in_order, nowhere, world, server, call_document, call_boom, call_request, call_parses,
}

abbrev no_env : Env
no_env key = ""

-- An output that every write to succeeds on.
abbrev silence : Output
silence = record { world = world; written = []; writes = 0; fails = λ n. none }

-- An output that no write to succeeds on.
abbrev broken_pipe : Output
broken_pipe = record silence { fails = λ n. some "broken pipe" }

abbrev input : List Event
input = line call_boom ∷ line (encoded (text "?")) ∷ read_error false "token too long" ∷ []

start-run_handler_example :
    (start nowhere (run_handler in_order server) input broken_pipe).1
    ≡ failed "reading input: token too long"
start-run_handler_example = start-run_handler in_order server nowhere input broken_pipe

-- Two calls of the tool that panics.
abbrev calls : List Json
calls = call_document ∷ call_document ∷ []

start-AnswersTo_example :
    let end_ =
      start nowhere (run_handler in_order server) (map (λ v. line (encoded v)) calls) silence in
    (rs : List Raw) × (end_.1 ≡ finished)
    × (end_.0.written ≡ [] ++ as_lines rs)
    × Pairwise (AnswersTo in_order) (map encoded calls) rs
start-AnswersTo_example =
    start-AnswersTo in_order server nowhere calls silence refl (λ n. refl)
      ((call_request, call_parses), ((call_request, call_parses), tt))

abbrev ask : (method path : String) → List (String × String) → HttpRequest
ask method path query = record {
  method = method;
  path = path;
  headers = [];
  query = query;
  remote_addr = "10.0.0.1:999";
  body = some call_boom;
}

abbrev state : State
state = record { manager = empty_manager; world = world; writer = fresh_writer true }

abbrev handle_found : Option Handler → Handler
handle_found (some h) r fresh conn st = h r fresh conn st
handle_found none r fresh conn st = record st {
  writer = http_error "404 page not found" 404 st.writer;
}

-- A mux that goes by the path alone, on a network where nothing fails.
abbrev by_path : List (String × Handler) → Handler
by_path table r = handle_found (get r.path table) r

abbrev net : Net
net = record {
  mux = λ table. returns (by_path table);
  wakes = λ l server. context_done;
  shutdown = λ server. none;
}

by_path-Dispatches : (table : List (String × Handler)) → Dispatches table (by_path table)
by_path-Dispatches table r g found = ap (λ o. handle_found o r) found

abbrev plain_transport : StreamableTransport Handler
unfolding new_streamable_http
plain_transport = new_streamable_http []

plain :
    (plain_transport.http_mws ≡ [])
    × (plain_transport.auth ≡ none)
    × ("/mcp" ≡ plain_transport.endpoint)
unfolding new_streamable_http
plain = (refl, refl, refl)

started-answers_example :
    (g : Handler) × (http_handler net plain_transport no_env nowhere (run_handler in_order server)
      ≡ returns g)
    × ((v : Json) × AnswersTo in_order call_boom (encoded v)
        × Served (encoded v) (fresh_writer true) (g (ask "POST" "/mcp" []) "f" 3 state))
started-answers_example =
    started-answers net plain_transport no_env nowhere (ask "POST" "/mcp" []) in_order server
      (by_path (routes net plain_transport no_env nowhere (run_handler in_order server))) call_boom
      call_request "f" 3 state refl
      (by_path-Dispatches (routes net plain_transport no_env nowhere (run_handler in_order server)))
      (record { once = tt; held = tt }) plain.0 plain.1 refl plain.2 refl refl call_parses

abbrev open_sse : SseTransport (Unit {0})
unfolding new_sse
open_sse = new_sse []

abbrev post_to_a : HttpRequest
post_to_a = ask "POST" "/messages" (("sessionId", "a") ∷ [])

a_given : query_value "sessionId" post_to_a ≢ ""
unfolding query_value get
a_given = ground (arith, eq_iff "a" "")

a_named : query_value "sessionId" post_to_a ≡ "a"
unfolding query_value get
a_named = refl

no_auth : open_sse.auth ≡ none
unfolding new_sse
no_auth = refl

sse_request_answered_example :
    (v : Json) × AnswersTo in_order call_boom (encoded v)
    × Delivered "a" 1 0 v (fresh_writer true) (
        handle_messages open_sse no_env nowhere post_to_a
          (run_handler in_order server)
          (record (handle_sse open_sse no_env nowhere (ask "GET" "/sse" []) "a" 1 state) {
            writer = fresh_writer true;
          }))
sse_request_answered_example =
    sse_request_answered open_sse no_env nowhere in_order server (ask "GET" "/sse" []) post_to_a "a"
      1 state (fresh_writer true) call_boom call_request no_auth refl refl a_given a_named refl
      call_parses
