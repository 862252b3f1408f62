-- ===== src/Tests/Server.antt =====
-- The message layer at concrete inputs: parsing, the registry, the router and the handler chain.
use custom_mcps.Prelude.{
  inr, String, true, false, none, some, List, [], ◌∷◌, ◌++◌, ok, returns, panics, ◌≡◌, ◌≢◌, refl,
  arith, ◌==◌, eq_iff, ◌<>◌,
}
use custom_mcps.Prelude.Int.{pos, negsuc, is_int64}
use custom_mcps.Prelude.Maps.{get, put}
use custom_mcps.Json.{
  Json, null, integer, text, object, end, member, Raw, absent, malformed, encoded, names_field,
  to_members,
}
use custom_mcps.Context.{Context}
use custom_mcps.World.{World, after_reading}
use custom_mcps.Protocol.Errors.{
  RpcError, rpc, plain, value, error, new_parse_error, code_parse_error, code_method_not_found,
}
use custom_mcps.Protocol.Message.{
  Request, Notification, Response, request, notification, response, top_level, has_key, parse_as,
  parse_message, new_response, new_error_response,
}
use custom_mcps.Protocol.Parse.{parse_message-kind, reparse, reparse-response}
use custom_mcps.Registry.{
  GoRuntime, Registry, ToolDefinition, ResourceDefinition, PromptDefinition, register_tool_raw,
  list_tools, get_tool, get_resource, get_prompt, empty_registry,
}
use custom_mcps.Registry.Trace.{register_all, register_all_lem, tool, resource, prompt}
use custom_mcps.Registry.Laws.{IsConsistent, list_tools-register_tool_raw}
use custom_mcps.Middleware.{chain, recovery, logging}
use custom_mcps.Middleware.Laws.{chain-append}
use custom_mcps.Server.{Server}
use custom_mcps.Server.Options.{default_server}
use custom_mcps.Server.Dispatch.{dispatch, handle_request, handle_tools_call}
use custom_mcps.Server.Dispatch.Replies.{Answers, error_document, error_object}
use custom_mcps.Server.Dispatch.Messages.{dispatch_notification, dispatch_parse_error, Silent}
use custom_mcps.Server.Dispatch.Branches.{unknown_method, tools_call_answer, ToolAnswer, failed}
use custom_mcps.Server.Run.{run_handler}
use custom_mcps.Server.Run.Logged.{Logged, run_handler-Logged}
use custom_mcps.Server.Run.Safety.{run_handler_returns, run_handler-Answers, Returned}
use mathlib.Core.List.{Perm}
use mathlib.Core.List.Perm

-- Maps are gone over in the order of registration.
abbrev pub in_order : GoRuntime
in_order = record { read_any = λ v. ok v; order = λ V m. m; order_perm = λ V m. Perm.refl m }

abbrev pub nowhere : Context
nowhere = record { values = [] }

abbrev pub world : World
world = record { initialized = false; log = []; clock = λ n. n; reads = 0 }

-- A tool that panics.
abbrev pub boom : ToolDefinition
boom = record {
  info = record { name = "boom"; description = ""; input_schema = absent };
  handler = λ ctx args. panics "boom";
}

abbrev pub page : ResourceDefinition
page = record {
  info = record { uri = "file:///a"; name = "a"; description = ""; mime_type = "" };
  handler = λ ctx uri. returns (error (plain "no such page"));
}

abbrev pub greeting : PromptDefinition
greeting = record {
  info = record { name = "greet"; description = ""; arguments = [] };
  handler = λ ctx args. returns (value none);
}

abbrev pub one_tool : Registry
one_tool = record { tools = ("boom", boom) ∷ []; resources = []; prompts = [] }

abbrev pub server : Server (Unit {0}) (Unit {0})
server = record default_server { registry = one_tool }

-- {"jsonrpc": "2.0", "id": 7, "method": "tools/call", "params": {"name": "boom"}}
abbrev pub call_params : Json
call_params = object (member "name" (text "boom") end)

abbrev pub call_document : Json
call_document = object (
    to_members (
      ("jsonrpc", text "2.0")
      ∷ ("id", integer (pos 7))
      ∷ ("method", text "tools/call")
      ∷ ("params", call_params)
      ∷ []))

abbrev pub call_boom : Raw
call_boom = encoded call_document

abbrev pub call_request : Request
call_request = record {
  jsonrpc = "2.0";
  id = encoded (integer (pos 7));
  method = "tools/call";
  params = encoded call_params;
}

pub call_parses : parse_message in_order.read_any call_boom ≡ value (request call_request)
unfolding parse_message top_level parse_as get put names_field
call_parses = refl

abbrev initialized_note : Raw
initialized_note = encoded (object (member "method" (text "notifications/initialized") end))

abbrev note : Notification
note = record { jsonrpc = ""; method = "notifications/initialized"; params = absent }

note_parses : parse_message in_order.read_any initialized_note ≡ value (notification note)
unfolding parse_message top_level parse_as get put names_field
note_parses = refl

-- The exact keys decide: a request whose method is written METHOD counts as a response.
upper_case_method :
    parse_message in_order.read_any
      (encoded (object (member "id" null (member "METHOD" (text "ping") end))))
    ≡ value (response (record { jsonrpc = ""; id = encoded null; result = absent; failure = none }))
unfolding parse_message top_level parse_as get put names_field
upper_case_method = refl

broken_parses :
    parse_message in_order.read_any (malformed "bad") ≡ error (rpc (new_parse_error "bad"))
unfolding parse_message top_level
broken_parses = refl

parse_message-kind_example :
    (fields : List (String × Json)) × (top_level call_boom ≡ ok fields)
    × (has_key "id" fields ≡ true)
    × (has_key "method" fields ≡ true)
parse_message-kind_example =
    parse_message-kind in_order.read_any call_boom (request call_request) call_parses

code_fits : is_int64 (negsuc 32600) ≡ true
unfolding is_int64
code_fits = refl

abbrev refusal : RpcError
refusal = record { code = negsuc 32600; message = "no"; details = some (ok (text "why")) }

not_null : text "why" ≢ null
not_null h = cc

reparse-response_example :
    ((r : Response) × (new_response (encoded (integer (pos 1))) (ok (text "x")) ≡ value r)
      × (reparse in_order.read_any r ≡ value (response r)))
    × (reparse in_order.read_any (new_error_response (encoded (integer (pos 1))) refusal)
        ≡ value (response (new_error_response (encoded (integer (pos 1))) refusal)))
reparse-response_example =
    reparse-response in_order.read_any (integer (pos 1)) (text "x") refusal code_fits
      (inr (text "why", not_null, refl, refl))

one_tool-IsConsistent : IsConsistent one_tool
one_tool-IsConsistent = record {
  tools_once = (tt, tt);
  tools_filed = (refl, tt);
  resources_once = tt;
  resources_filed = tt;
  prompts_once = tt;
  prompts_filed = tt;
}

list_tools-register_tool_raw_example :
    Perm
      (list_tools in_order (register_tool_raw boom empty_registry))
      (boom.info ∷ list_tools in_order empty_registry)
unfolding get_tool get
list_tools-register_tool_raw_example =
    list_tools-register_tool_raw in_order empty_registry boom refl

chain-append_example :
    chain ((recovery ∷ []) ++ (logging ∷ [])) (dispatch in_order server)
    ≡ chain (recovery ∷ []) (chain (logging ∷ []) (dispatch in_order server))
chain-append_example = chain-append (recovery ∷ []) (logging ∷ []) (dispatch in_order server)

dispatch_notification_example :
    Silent world true [] (dispatch in_order server nowhere initialized_note world)
dispatch_notification_example =
    dispatch_notification in_order server nowhere initialized_note world note note_parses

dispatch_parse_error_example :
    (t : String) × (dispatch in_order server nowhere (malformed "bad") world
      ≡ (world, returns (encoded (error_document null (error_object code_parse_error t [])))))
dispatch_parse_error_example =
    dispatch_parse_error in_order server nowhere (malformed "bad") world
      (rpc (new_parse_error "bad")) broken_parses

unlike : (m : String) → ("nope" == m) ≡ false → ◌≢◌ {A = String} "nope" m
unlike m n = ground (arith, eq_iff "nope" m)

unknown_method_example :
    handle_request in_order server nowhere
      (record { jsonrpc = "2.0"; id = encoded null; method = "nope"; params = absent })
      world
    ≡ failed null (error_object code_method_not_found ("method not found: " <> "nope") []) world
unknown_method_example = unknown_method in_order server nowhere world null "2.0" "nope" absent (
  unlike "initialize" refl,
  (
    unlike "ping" refl,
    (
      unlike "tools/list" refl,
      (
        unlike "tools/call" refl,
        (
          unlike "resources/list" refl,
          (
            unlike "resources/read" refl,
            (unlike "prompts/list" refl, (unlike "prompts/get" refl, tt)),
          ),
        ),
      ),
    ),
  ),
)

tools_call_answer_example :
    ToolAnswer in_order server nowhere world
      (integer (pos 7))
      "2.0"
      "tools/call"
      (encoded call_params)
      (handle_tools_call in_order server nowhere call_request world)
tools_call_answer_example =
    tools_call_answer in_order server nowhere world (integer (pos 7)) "2.0" "tools/call"
      (encoded call_params)

run_handler_returns_example :
    (resp : Raw) × ((run_handler in_order server nowhere call_boom world).1 ≡ returns resp)
run_handler_returns_example = run_handler_returns in_order server nowhere call_boom world

run_handler-Answers_example :
    (id : Json) × (call_request.id ≡ encoded id)
    × Returned (Answers id) (run_handler in_order server nowhere call_boom world)
run_handler-Answers_example =
    run_handler-Answers in_order server nowhere call_boom world call_request refl call_parses

run_handler-Logged_example :
    (id : Json) × (call_request.id ≡ encoded id)
    × Logged id "tools/call" 0
        (dispatch in_order server nowhere call_boom (after_reading world))
        (run_handler in_order server nowhere call_boom world)
run_handler-Logged_example =
    run_handler-Logged in_order server nowhere call_boom world call_request refl call_parses

register_all_lem_example :
    let r =
      register_all (tool boom ∷ resource page ∷ prompt greeting ∷ tool boom ∷ []) empty_registry in
    (get_tool "boom" r ≡ some boom)
    × (get_resource "boom" r ≡ none)
    × (get_prompt "boom" r ≡ none)
    × IsConsistent r
register_all_lem_example =
    register_all_lem (tool boom ∷ resource page ∷ prompt greeting ∷ tool boom ∷ []) "boom"
