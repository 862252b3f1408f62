-- ===== src/Tests/Sse.antt =====
-- The SSE transport at concrete inputs.
use custom_mcps.Prelude.{
  String, true, false, none, some, List, [], ◌∷◌, returns, ◌≡◌, ◌≢◌, refl, arith, eq_iff,
}
use custom_mcps.Prelude.Maps.{get}
use custom_mcps.Json.{null, text, encoded}
use custom_mcps.Context.{Context}
use custom_mcps.Http.{HttpRequest, fresh_writer, query_value}
use custom_mcps.Auth.{Env}
use custom_mcps.World.{World, MessageHandler}
use custom_mcps.Transport.Session.{empty_manager, create}
use custom_mcps.Transport.Streamable.{State}
use custom_mcps.Transport.Sse.{
  SseTransport, new_sse, handle_sse, handle_messages, serve_sse, serve_messages, end_stream,
  announce, attach_stream, endpoint_data,
}
use custom_mcps.Transport.Sse.Laws.{early_post-Lost, Lost}
use custom_mcps.Transport.Sse.Stay.{Keeps, sessions_stay}

abbrev world : World
world = record { initialized = false; log = []; clock = λ n. n; reads = 0 }

abbrev nowhere : Context
nowhere = record { values = [] }

abbrev no_env : Env
no_env key = ""

abbrev open_sse : SseTransport (Unit {0})
unfolding new_sse
open_sse = new_sse []

abbrev ask : String → List (String × String) → HttpRequest
ask method query = record {
  method = method;
  path = "/messages";
  headers = [];
  query = query;
  remote_addr = "10.0.0.1:999";
  body = some (encoded null);
}

abbrev state : State
state = record { manager = empty_manager; world = world; writer = fresh_writer true }

-- A handler that answers each message with a text.
abbrev echo : MessageHandler
echo ctx raw w = (w, returns (encoded (text "ok")))

abbrev post_to_a : HttpRequest
post_to_a = ask "POST" (("sessionId", "a") ∷ [])

a_given : query_value "sessionId" post_to_a ≢ ""
unfolding query_value get
a_given = ground (arith, eq_iff "a" "")

a_named : query_value "sessionId" post_to_a ≡ "a"
unfolding query_value get
a_named = refl

no_auth : open_sse.auth ≡ none
unfolding new_sse
no_auth = refl

b_not_a : ◌≢◌ {A = String} "b" "a"
b_not_a = ground (arith, eq_iff "b" "a")

sessions_stay_example :
    Keeps open_sse no_env nowhere post_to_a "b" "a" b_not_a state
      (serve_sse open_sse no_env nowhere post_to_a "b" 2 state)
    × Keeps open_sse no_env nowhere post_to_a "b" "a" b_not_a state
        (serve_messages open_sse no_env nowhere post_to_a echo state)
    × Keeps open_sse no_env nowhere post_to_a "b" "a" b_not_a state (end_stream 0 2 state)
sessions_stay_example =
    sessions_stay open_sse no_env nowhere post_to_a "b" "a" b_not_a 2 0 echo state

abbrev told : State
told =
    announce (endpoint_data open_sse no_env nowhere (ask "GET" []) "a") state
      (create "a" 0 empty_manager)

early_post-Lost_example :
    (handle_sse open_sse no_env nowhere (ask "GET" []) "a" 1 state
      ≡ attach_stream (create "a" 0 empty_manager).0 1 told)
    × Lost "a" (create "a" 0 empty_manager).0 1 0 (fresh_writer true) (
        handle_messages open_sse no_env nowhere post_to_a echo
          (record told { writer = fresh_writer true }))
early_post-Lost_example =
    early_post-Lost open_sse no_env nowhere (ask "GET" []) post_to_a "a" 1 echo state
      (fresh_writer true) (encoded null) (text "ok") no_auth refl a_given a_named refl refl
