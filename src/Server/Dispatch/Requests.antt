-- ===== src/Server/Dispatch/Requests.antt =====
-- What the handler of a request answers, method by method.
use custom_mcps.Prelude.{
  String, Bool, true, false, Option, none, some, ok, err, Outcome, Result, if◌then◌else◌, ◌==◌,
}
use custom_mcps.Json.{Json, Raw, encoded, fields_of_nothing}
use custom_mcps.Context.{Context}
use custom_mcps.World.{World}
use custom_mcps.Protocol.Errors.{AnyValue, RpcError, Call, new_method_not_found}
use custom_mcps.Protocol.Message.{Request}
use custom_mcps.Protocol.Payloads.{
  decode_call_tool_params, encode_call_tool_result, decode_read_resource_params,
  encode_read_resource_result, decode_get_prompt_params, encode_get_prompt_result,
}
use custom_mcps.Registry.{GoRuntime, get_tool, get_resource, get_prompt}
use custom_mcps.Server.{Server}
use custom_mcps.Server.Dispatch.{
  Reply, or_invalid, or_unknown, respond, fail, finish, given_params, handle_initialize,
  handle_tools_list, handle_tools_call, handle_resources_list, handle_resources_read,
  handle_prompts_list, handle_prompts_get, handle_request,
}
use custom_mcps.Server.Dispatch.Replies.{
  AnswersOrPanics, fail_answers, respond_answers, finish_answers,
}

-- A property of the reply holds whichever way a test of the method goes.
whichever {ℓ} :
    (Q : Reply → Type ℓ) (test : Bool) {taken other : Reply}
    → Q taken
    → Q other
    → Q (if test then taken else other)
whichever Q false q1 q2 = q2
whichever Q true q1 q2 = q1

-- A wrapper that keeps the reply in sight of unification.
record Good (id : Json) (r : Reply) : Type 0 where
  answers : AnswersOrPanics id r.1

module _ (id : Json) (w : World) where
  or_invalid_answers {ℓ} :
      {P : Type ℓ} (r : Result P) (k : P → Reply)
      → ((p : P) → Good id (k p))
      → Good id (or_invalid (encoded id) w r k)
  unfolding or_invalid
  or_invalid_answers (err e) k h = record { answers = fail_answers id _ w }
  or_invalid_answers (ok p) k h = h p

  or_unknown_answers {ℓ} :
      {D : Type ℓ} (what : String) (o : Option D) (k : D → Reply)
      → ((d : D) → Good id (k d))
      → Good id (or_unknown (encoded id) w what o k)
  unfolding or_unknown
  or_unknown_answers what none k h = record { answers = fail_answers id _ w }
  or_unknown_answers what (some d) k h = h d

  Good-fail : (e : RpcError) → Good id (fail (encoded id) e w)
  Good-fail e = record { answers = fail_answers id e w }

  Good-respond : (v : AnyValue) → Good id (respond (encoded id) v w)
  Good-respond v = record { answers = respond_answers id v w }

  Good-finish {ℓ} :
      {A : Type ℓ} (encode : A → AnyValue) (out : Outcome (Call A))
      → Good id (finish (encoded id) encode out w)
  Good-finish encode out = record { answers = finish_answers id encode out w }

module _ (runtime : GoRuntime) {T H : Type 0} (s : Server T H) (ctx : Context) (w : World) where
  module _ (id : Json) (version method : String) (params : Raw) where
    abbrev req : Request
    req = record { jsonrpc = version; id = encoded id; method = method; params = params }

    initialize-Good : Good id (handle_initialize runtime s req w)
    unfolding handle_initialize
    initialize-Good = or_invalid_answers id w (given_params params) _ λ p. Good-respond id w _

    tools_list-Good : Good id (handle_tools_list runtime s req w)
    unfolding handle_tools_list
    tools_list-Good = Good-respond id w _

    tools_call-Good : Good id (handle_tools_call runtime s ctx req w)
    unfolding handle_tools_call
    tools_call-Good = or_invalid_answers id w (decode_call_tool_params params) _ λ p.
        or_unknown_answers id w _ (get_tool p.name s.registry) _
          λ d. Good-finish id w encode_call_tool_result (d.handler ctx p.arguments)

    resources_list-Good : Good id (handle_resources_list runtime s req w)
    unfolding handle_resources_list
    resources_list-Good = Good-respond id w _

    resources_read-Good : Good id (handle_resources_read runtime s ctx req w)
    unfolding handle_resources_read
    resources_read-Good = or_invalid_answers id w (decode_read_resource_params params) _ λ p.
        or_unknown_answers id w _ (get_resource p.uri s.registry) _
          λ d. Good-finish id w encode_read_resource_result (d.handler ctx p.uri)

    prompts_list-Good : Good id (handle_prompts_list runtime s req w)
    unfolding handle_prompts_list
    prompts_list-Good = Good-respond id w _

    prompts_get-Good : Good id (handle_prompts_get runtime s ctx req w)
    unfolding handle_prompts_get
    prompts_get-Good = or_invalid_answers id w (decode_get_prompt_params params) _ λ p.
        or_unknown_answers id w _ (get_prompt p.name s.registry) _
          λ d. Good-finish id w encode_get_prompt_result (d.handler ctx p.arguments)

    handle_request-Good : Good id (handle_request runtime s ctx req w)
    unfolding handle_request
    handle_request-Good = whichever (Good id) (method == "initialize") initialize-Good (
        whichever (Good id) (method == "ping") (Good-respond id w (ok fields_of_nothing)) (
          whichever (Good id) (method == "tools/list") tools_list-Good (
            whichever (Good id) (method == "tools/call") tools_call-Good (
              whichever (Good id) (method == "resources/list") resources_list-Good (
                whichever (Good id) (method == "resources/read") resources_read-Good (
                  whichever (Good id) (method == "prompts/list") prompts_list-Good (
                    whichever (Good id) (method == "prompts/get") prompts_get-Good
                      (Good-fail id w (new_method_not_found method)))))))))

  -- Every request with an id is answered under that id, with either a result or an error, or a
  -- handler or the marshaller panics.
  pub handle_request_answers :
      (id : Json) (version method : String) (params : Raw)
      → AnswersOrPanics id
          (handle_request runtime s ctx
            (record { jsonrpc = version; id = encoded id; method = method; params = params })
            w).1
  handle_request_answers id version method params =
      (handle_request-Good id version method params).answers
