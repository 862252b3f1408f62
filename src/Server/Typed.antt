-- ===== src/Server/Typed.antt =====
-- framework/server/server.go: Tool, which registers a typed tool on the server's registry, and what
-- a call of such a tool is answered.
use custom_mcps.Prelude.{
  String, ok, err, Result, Outcome, returns, panics, ◌<>◌, ◌≡◌, refl, ap, ◌∙◌, eq_refl, [],
}
use custom_mcps.Json.{Json, Raw, encoded}
use custom_mcps.Library.{GoLibrary}
use custom_mcps.Context.{Context}
use custom_mcps.World.{World}
use custom_mcps.Protocol.Errors.{code_internal_error, cause}
use custom_mcps.Protocol.Message.{encode_response}
use custom_mcps.Protocol.Payloads.{CallToolParams, encode_call_tool_result, decode_call_tool_params}
use custom_mcps.Schema.{encode_schema}
use custom_mcps.Schema.Generate.{generate}
use custom_mcps.Registry.{GoRuntime, Registry}
use custom_mcps.Registry.Typed.{
  Input, TypedHandler, typed_definition, read_input, wrapped, register_tool, get_tool-register_tool,
  after_decoding,
}
use custom_mcps.Server.{Server}
use custom_mcps.Server.Dispatch.{Reply, finish, handle_tools_call, fail_with, fail}
use custom_mcps.Server.Dispatch.Replies.{error_object}
use custom_mcps.Server.Dispatch.Branches.{failed, called, req}

-- What a call with decoded arguments, or with the error of decoding them, is answered.
abbrev pub typed_reply :
    {I : Type 0}
    → GoLibrary
    → String
    → TypedHandler I
    → Context
    → (id : Json) → World
    → Result I
    → Reply
typed_reply lib name handler ctx id w (ok x) =
    finish (encoded id) encode_call_tool_result (handler ctx x) w
typed_reply lib name handler ctx id w (err e) =
    failed id
      (error_object code_internal_error
        (("invalid parameters for tool " <> lib.quote name <> ": ") <> e) [])
      w

module _ (lib : GoLibrary) {I : Type 0} (input : Input I) where
  pub finish-after_decoding :
      (name : String) (handler : TypedHandler I) (ctx : Context) (id : Json) (w : World)
      (x : Result I)
      → finish (encoded id) encode_call_tool_result (after_decoding lib input name handler ctx x) w
        ≡ typed_reply lib name handler ctx id w x
  unfolding finish fail_with cause fail encode_response
  finish-after_decoding name handler ctx id w (ok x) = refl
  finish-after_decoding name handler ctx id w (err e) = refl

module _ (lib : GoLibrary) {I : Type 0} (input : Input I) {T H : Type 0} where
  abbrev pub put_registry : Server T H → Outcome Registry → Outcome (Server T H)
  put_registry s (returns r) = returns (record s { registry = r })
  put_registry s (panics p) = panics p

  unfoldable pub tool :
      Server T H → (name description : String) → TypedHandler I → Outcome (Server T H)
  tool s name description handler =
      put_registry s (register_tool lib input name description handler s.registry)

  pub tools_call-tool :
      (runtime : GoRuntime) (s : Server T H) (ctx : Context) (w : World) (id : Json)
      (version method : String) (params : Raw) (name description : String)
      (handler : TypedHandler I) (schema : Json) (p : CallToolParams)
      → encode_schema (generate lib.parse_float input.type) ≡ ok schema
      → decode_call_tool_params params ≡ ok p
      → p.name ≡ name
      → (s' : Server T H) × (tool s name description handler ≡ returns s')
        × (handle_tools_call runtime s' ctx (req runtime s' ctx w id version method params) w
            ≡ typed_reply lib name handler ctx id w (read_input lib input p.arguments))
  unfolding tool wrapped
  tools_call-tool runtime s ctx w id version method params name description handler schema p e
        decoded named =
      let (r', registered, found, _, _) =
        get_tool-register_tool lib input name description p.name handler s.registry schema e in
      let s' : Server T H = record s { registry = r' } in
      (
        s',
        ap (put_registry s) registered,
        called runtime s' ctx w id version method params p
              (typed_definition lib input name description handler schema) decoded
              (found ∙ (rw (← named) (rw (eq_refl p.name))))
            ∙ finish-after_decoding lib input name handler ctx id w
                (read_input lib input p.arguments),
      )
