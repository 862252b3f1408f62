-- ===== src/Server/Dispatch.antt =====
-- framework/server/server.go: the JSON-RPC router and the handlers of the MCP methods.
pub mod Replies
pub mod Requests
pub mod Messages
pub mod Branches
pub mod Initialize
use custom_mcps.Prelude.{
  String, Bool, true, false, Option, none, some, List, [], ◌∷◌, is_empty, Result, ok, err, Outcome,
  returns, panics, ◌<>◌, ◌==◌, if◌then◌else◌,
}
use custom_mcps.Json.{Json, Raw, absent, malformed, encoded, fields_of_nothing}
use custom_mcps.Context.{Context}
use custom_mcps.World.{
  World, MessageHandler, request_canceled, unknown_notification, marshal_failed, add_log,
}
use custom_mcps.Protocol.Errors.{
  AnyValue, RpcError, Call, value, error, GoError, Cause, protocol_error, other, cause,
  new_method_not_found, new_invalid_params, new_internal_error,
}
use custom_mcps.Protocol.Message.{
  Request, Notification, Response, Message, request, notification, response, new_response,
  new_error_response, encode_response, parse_message,
}
use custom_mcps.Protocol.Payloads.{
  protocol_version, InitializeResult, encode_initialize_result, encode_tool_list,
  encode_call_tool_result, decode_call_tool_params, encode_resource_list,
  encode_read_resource_result, decode_read_resource_params, encode_prompt_list,
  encode_get_prompt_result, decode_get_prompt_params, decode_initialize_params, InitializeParams,
  empty_initialize_params,
}
use custom_mcps.Registry.{
  GoRuntime, list_tools, get_tool, list_resources, get_resource, list_prompts, get_prompt,
}
use custom_mcps.Server.{Server}

-- What a handler of a request leaves: the world, and the bytes of the response or a panic.
abbrev pub Reply : Type 0
Reply = World × Outcome Raw

unfoldable pub must_marshal : Result Json → Outcome Raw
must_marshal (ok v) = returns (encoded v)
must_marshal (err e) = panics ("server: failed to marshal JSON: " <> e)

-- `mustMarshal(NewErrorResponse(id, e))`
unfoldable pub fail : Raw → RpcError → World → Reply
unfolding must_marshal
fail id e w = (w, must_marshal (encode_response (new_error_response id e)))

-- `errors.As(err, &rpcErr)`, and an internal error where it is none.
unfoldable pub fail_with : Raw → GoError → World → Reply
fail_with id g w = elim (cause g) [
  | protocol_error e ↦ fail id e w
  | other t ↦ fail id (new_internal_error t) w
]

unfoldable pub respond : Raw → AnyValue → World → Reply
unfolding must_marshal
respond id result w = elim (new_response id result) [
  | value resp ↦ (w, must_marshal (encode_response resp))
  | error g ↦ elim (cause g) [
    | protocol_error e ↦ fail id e (add_log (marshal_failed e.message) w)
    | other t ↦ fail id (new_internal_error t) (add_log (marshal_failed t) w)
  ]
]

-- The end of the three handlers that call user code.
unfoldable pub finish {ℓ} : {A : Type ℓ} → Raw → (A → AnyValue) → Outcome (Call A) → World → Reply
finish id encode (returns (value a)) w = respond id (encode a) w
finish id encode (returns (error g)) w = fail_with id g w
finish id encode (panics p) w = (w, panics p)

-- The parameters are used, or the request fails.
unfoldable pub or_invalid {ℓ} : {P : Type ℓ} → Raw → World → Result P → (P → Reply) → Reply
or_invalid id w (err e) use_params = fail id (new_invalid_params e) w
or_invalid id w (ok p) use_params = use_params p

-- The definition that was looked up is used, or the request fails with this message.
unfoldable pub or_unknown {ℓ} : {D : Type ℓ} → Raw → World → String → Option D → (D → Reply) → Reply
or_unknown id w message none use_definition = fail id (new_invalid_params message) w
or_unknown id w message (some d) use_definition = use_definition d

-- The parameters of `initialize` may be left out.
abbrev pub given_params : Raw → Result InitializeParams
given_params absent = ok empty_initialize_params
given_params params = decode_initialize_params params

abbrev supported {ℓ κ} : {A : Type ℓ} {C : Type κ} → List A → C → Option C
supported [] c = none
supported (a ∷ xs) c = some c

module _ (runtime : GoRuntime) {T H : Type 0} (s : Server T H) where
  abbrev pub initialize_result : InitializeResult
  initialize_result = record {
    version = protocol_version;
    capabilities = record {
      tools = supported (list_tools runtime s.registry) (record { list_changed = false });
      resources =
          supported (list_resources runtime s.registry)
            (record { subscribe = false; list_changed = false });
      prompts = supported (list_prompts runtime s.registry) (record { list_changed = false });
      logging = false;
    };
    server_info = record { name = s.name; version = s.version };
    instructions = s.instructions;
  }

  unfoldable pub handle_initialize : Request → World → Reply
  unfolding or_invalid
  handle_initialize req w =
      or_invalid req.id w (given_params req.params)
        λ p. respond req.id (ok (encode_initialize_result initialize_result)) w

  unfoldable pub handle_tools_list : Request → World → Reply
  handle_tools_list req w = respond req.id (encode_tool_list (list_tools runtime s.registry)) w

  unfoldable pub handle_tools_call : Context → Request → World → Reply
  unfolding or_invalid or_unknown
  handle_tools_call ctx req w = or_invalid req.id w (decode_call_tool_params req.params) λ p.
      or_unknown req.id w ("unknown tool: " <> p.name) (get_tool p.name s.registry)
        λ d. finish req.id encode_call_tool_result (d.handler ctx p.arguments) w

  unfoldable pub handle_resources_list : Request → World → Reply
  handle_resources_list req w =
      respond req.id (encode_resource_list (list_resources runtime s.registry)) w

  unfoldable pub handle_resources_read : Context → Request → World → Reply
  unfolding or_invalid or_unknown
  handle_resources_read ctx req w =
      or_invalid req.id w (decode_read_resource_params req.params) λ p.
        or_unknown req.id w ("unknown resource: " <> p.uri) (get_resource p.uri s.registry)
          λ d. finish req.id encode_read_resource_result (d.handler ctx p.uri) w

  unfoldable pub handle_prompts_list : Request → World → Reply
  handle_prompts_list req w =
      respond req.id (encode_prompt_list (list_prompts runtime s.registry)) w

  unfoldable pub handle_prompts_get : Context → Request → World → Reply
  unfolding or_invalid or_unknown
  handle_prompts_get ctx req w = or_invalid req.id w (decode_get_prompt_params req.params) λ p.
      or_unknown req.id w ("unknown prompt: " <> p.name) (get_prompt p.name s.registry)
        λ d. finish req.id encode_get_prompt_result (d.handler ctx p.arguments) w

  unfoldable pub handle_request : Context → Request → World → Reply
  handle_request ctx req w =
      if req.method == "initialize"
      then handle_initialize req w
      else if req.method == "ping"
      then respond req.id (ok fields_of_nothing) w
      else if req.method == "tools/list"
      then handle_tools_list req w
      else if req.method == "tools/call"
      then handle_tools_call ctx req w
      else if req.method == "resources/list"
      then handle_resources_list req w
      else if req.method == "resources/read"
      then handle_resources_read ctx req w
      else if req.method == "prompts/list"
      then handle_prompts_list req w
      else if req.method == "prompts/get"
      then handle_prompts_get ctx req w
      else fail req.id (new_method_not_found req.method) w

  unfoldable pub handle_notification : Notification → World → Reply
  handle_notification n w =
      if n.method == "notifications/initialized"
      then (record w { initialized = true }, returns absent)
      else if n.method == "notifications/cancelled"
      then (add_log request_canceled w, returns absent)
      else (add_log (unknown_notification n.method) w, returns absent)

  unfoldable pub dispatch : MessageHandler
  dispatch ctx raw w = elim (parse_message runtime.read_any raw) [
    | error g ↦ fail_with absent g w
    | value m ↦ elim m [
      | notification n ↦ handle_notification n w
      | request req ↦ handle_request ctx req w
      | response r ↦ (w, returns absent)
    ]
  ]
