-- ===== src/EndToEnd.antt =====
-- The transports with the handler that `Run` of framework/server/server.go starts them with.
pub mod Stdio
pub mod Streamable
pub mod Sse
use custom_mcps.Prelude.{String, List, [], returns, ◌≡◌, refl, inl, inr, ◌∙◌, ap, sym, subst}
use custom_mcps.Json.{Json, Raw, encoded}
use custom_mcps.Context.{Context}
use custom_mcps.World.{World}
use custom_mcps.Protocol.Errors.{value}
use custom_mcps.Protocol.Message.{Request, request, parse_message}
use custom_mcps.Registry.{GoRuntime}
use custom_mcps.Server.{Server}
use custom_mcps.Server.Dispatch.Replies.{Answers, result_document, error_document, error_object}
use custom_mcps.Server.Run.{run_handler}
use custom_mcps.Server.Run.Safety.{run_handler-Answers}

-- A request, and a response to it under its id.
abbrev pub AnswersTo : GoRuntime → Raw → Raw → Type 0
AnswersTo runtime raw resp =
    (r : Request) × (id : Json) × (parse_message runtime.read_any raw ≡ value (request r))
    × (r.id ≡ encoded id)
    × Answers id resp

Answers-encoded : (id : Json) (resp : Raw) → Answers id resp → (v : Json) × (resp ≡ encoded v)
Answers-encoded id resp (inl (v, e)) = (result_document id v, e)
Answers-encoded id resp (inr (code, text, more, e)) =
    (error_document id (error_object code text more), e)

-- Without user middleware the handler returns a document that answers the request.
pub run_handler-AnswersTo :
    (runtime : GoRuntime) {T H : Type 0} (s : Server T H) (ctx : Context) (raw : Raw) (w : World)
    (r : Request)
    → s.middlewares ≡ []
    → parse_message runtime.read_any raw ≡ value (request r)
    → (v : Json) × ((run_handler runtime s ctx raw w).1 ≡ returns (encoded v))
      × AnswersTo runtime raw (encoded v)
run_handler-AnswersTo runtime s ctx raw w r bare parsed =
    let (id, same, (resp, replied, answered)) =
      run_handler-Answers runtime s ctx raw w r bare parsed in
    let (v, e) = Answers-encoded id resp answered in
    (v, replied ∙ ap returns e, (r, id, parsed, same, subst (Answers id) e answered))
