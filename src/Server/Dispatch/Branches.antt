-- ===== src/Server/Dispatch/Branches.antt =====
-- The branches of the request handlers, one by one.
use custom_mcps.Prelude.{
  String, Option, none, some, List, [], ◌∷◌, ok, err, returns, panics, ◌≡◌, ◌≢◌, refl, ◌<>◌, All,
  eq_of_ne, Outcome, Result, ◌∙◌,
}
use custom_mcps.Json.{Json, Raw, encoded}
use custom_mcps.Context.{Context}
use custom_mcps.World.{World}
use custom_mcps.Protocol.Errors.{
  GoError, Call, value, error, cause, other, Cause, protocol_error, RpcError, code_method_not_found,
  code_invalid_params, code_internal_error,
}
use custom_mcps.Protocol.Message.{Request, encode_response, new_response}
use custom_mcps.Protocol.Payloads.{
  CallToolParams, CallToolResult, encode_call_tool_result, decode_call_tool_params,
}
use custom_mcps.Registry.{GoRuntime, ToolDefinition, get_tool}
use custom_mcps.Server.{Server}
use custom_mcps.Server.Dispatch.{
  Reply, respond, fail, fail_with, finish, or_invalid, or_unknown, handle_tools_call,
  handle_request,
}
use custom_mcps.Server.Dispatch.Replies.{result_document, error_document, error_object}

-- The bytes of a successful and of a failing answer; the world stays.
abbrev pub answered : Json → Json → World → Reply
answered id v w = (w, returns (encoded (result_document id v)))

abbrev pub failed : Json → Json → World → Reply
failed id failure w = (w, returns (encoded (error_document id failure)))

-- The methods that the server has.
abbrev pub method_names : List String
method_names =
    "initialize" ∷ "ping" ∷ "tools/list" ∷ "tools/call" ∷ "resources/list" ∷ "resources/read"
    ∷ "prompts/list" ∷ "prompts/get" ∷ []

module _ (runtime : GoRuntime) {T H : Type 0} (s : Server T H) (ctx : Context) (w : World)
    (id : Json) (version method : String) (params : Raw) where
  abbrev pub req : Request
  req = record { jsonrpc = version; id = encoded id; method = method; params = params }

  -- A request for any other method is answered with code -32601 and the method's name.
  pub unknown_method :
      All (λ m. method ≢ m) method_names
      → handle_request runtime s ctx
          (record { jsonrpc = version; id = encoded id; method = method; params = params })
          w
        ≡ failed id (error_object code_method_not_found ("method not found: " <> method) []) w
  unfolding handle_request fail encode_response
  unknown_method (a, (b, (c, (d, (e, (f, (g, (h, _)))))))) = rw (
    eq_of_ne _ _ a,
    eq_of_ne _ _ b,
    eq_of_ne _ _ c,
    eq_of_ne _ _ d,
    eq_of_ne _ _ e,
    eq_of_ne _ _ f,
    eq_of_ne _ _ g,
    eq_of_ne _ _ h,
  )

  pub called :
      (p : CallToolParams) (d : ToolDefinition)
      → decode_call_tool_params params ≡ ok p
      → get_tool p.name s.registry ≡ some d
      → handle_tools_call runtime s ctx req w
        ≡ finish (encoded id) encode_call_tool_result (d.handler ctx p.arguments) w
  unfolding handle_tools_call
  called p d decoded found = rw (decoded, or_invalid, found, or_unknown)

  -- What a call of a tool was answered, with what led to it.
  pub data ToolAnswer (r : Reply) : Type 0 where
    bad_params :
        (t : String)
        → decode_call_tool_params params ≡ err t
        → r ≡ failed id (error_object code_invalid_params t []) w
        → ToolAnswer r
    unknown_tool :
        (p : CallToolParams)
        → decode_call_tool_params params ≡ ok p
        → get_tool p.name s.registry ≡ none
        → r ≡ failed id (error_object code_invalid_params ("unknown tool: " <> p.name) []) w
        → ToolAnswer r
    gave_result :
        (p : CallToolParams) (d : ToolDefinition) (result : Option CallToolResult) (v : Json)
        → decode_call_tool_params params ≡ ok p
        → get_tool p.name s.registry ≡ some d
        → d.handler ctx p.arguments ≡ returns (value result)
        → encode_call_tool_result result ≡ ok v
        → r ≡ answered id v w
        → ToolAnswer r
    gave_error :
        (p : CallToolParams) (d : ToolDefinition) (g : GoError) (t : String)
        → decode_call_tool_params params ≡ ok p
        → get_tool p.name s.registry ≡ some d
        → d.handler ctx p.arguments ≡ returns (error g)
        → cause g ≡ other t
        → r ≡ failed id (error_object code_internal_error t []) w
        → ToolAnswer r
    gave_rpc_error :
        (p : CallToolParams) (d : ToolDefinition) (g : GoError) (e : RpcError)
        → decode_call_tool_params params ≡ ok p
        → get_tool p.name s.registry ≡ some d
        → d.handler ctx p.arguments ≡ returns (error g)
        → cause g ≡ protocol_error e
        → r ≡ fail (encoded id) e w
        → ToolAnswer r
    panicked :
        (p : CallToolParams) (d : ToolDefinition) (t : String)
        → decode_call_tool_params params ≡ ok p
        → get_tool p.name s.registry ≡ some d
        → d.handler ctx p.arguments ≡ panics t
        → r ≡ (w, panics t)
        → ToolAnswer r

  -- A call of a tool ends in one of six ways: malformed parameters and an unknown name are answered
  -- with code -32602; a result of the tool is the result of the answer; an RPC error of the tool,
  -- also a wrapped one, is the error of the answer; any other error is answered with code -32603
  -- and its text; and a panic is passed on. The world stays as it was.
  pub tools_call_answer : ToolAnswer (handle_tools_call runtime s ctx req w)
  unfolding handle_tools_call fail encode_response finish respond new_response fail_with
  tools_call_answer = by_params (decode_call_tool_params params) refl
    where
      R : Reply
      R = handle_tools_call runtime s ctx req w

      by_error :
          (p : CallToolParams) (d : ToolDefinition) (g : GoError)
          → decode_call_tool_params params ≡ ok p
          → get_tool p.name s.registry ≡ some d
          → d.handler ctx p.arguments ≡ returns (error g)
          → (c : Cause) → cause g ≡ c
          → ToolAnswer R
      by_error p d g e f h (protocol_error x) c =
          gave_rpc_error p d g x e f h c (called p d e f ∙ rw (h, finish, fail_with, c))
      by_error p d g e f h (other t) c =
          gave_error p d g t e f h c (called p d e f ∙ rw (h, finish, fail_with, c))

      by_result :
          (p : CallToolParams) (d : ToolDefinition) (result : Option CallToolResult)
          → decode_call_tool_params params ≡ ok p
          → get_tool p.name s.registry ≡ some d
          → d.handler ctx p.arguments ≡ returns (value result)
          → ToolAnswer R
      by_result p d none e f h = gave_result p d none _ e f h refl (called p d e f ∙ rw (h, finish))
      by_result p d (some r) e f h =
          gave_result p d (some r) _ e f h refl (called p d e f ∙ rw (h, finish))

      by_outcome :
          (p : CallToolParams) (d : ToolDefinition)
          → decode_call_tool_params params ≡ ok p
          → get_tool p.name s.registry ≡ some d
          → (out : Outcome (Call (Option CallToolResult))) → d.handler ctx p.arguments ≡ out
          → ToolAnswer R
      by_outcome p d e f (returns (value result)) h = by_result p d result e f h
      by_outcome p d e f (returns (error g)) h = by_error p d g e f h (cause g) refl
      by_outcome p d e f (panics t) h = panicked p d t e f h (called p d e f ∙ rw (h, finish))

      by_tool :
          (p : CallToolParams)
          → decode_call_tool_params params ≡ ok p
          → (o : Option ToolDefinition) → get_tool p.name s.registry ≡ o
          → ToolAnswer R
      by_tool p e none f = unknown_tool p e f (rw (e, or_invalid, f, or_unknown))
      by_tool p e (some d) f = by_outcome p d e f (d.handler ctx p.arguments) refl

      by_params : (r : Result CallToolParams) → decode_call_tool_params params ≡ r → ToolAnswer R
      by_params (err t) e = bad_params t e (rw (e, or_invalid))
      by_params (ok p) e = by_tool p e (get_tool p.name s.registry) refl
