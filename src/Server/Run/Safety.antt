-- ===== src/Server/Run/Safety.antt =====
-- The handler that the transports call: it always returns, and it answers every request.
use custom_mcps.Prelude.{String, [], returns, panics, ◌≡◌, refl, ◌<>◌, inr, ap, sym, ◌∙◌, subst}
use custom_mcps.Json.{Json, Raw, encoded}
use custom_mcps.Context.{Context}
use custom_mcps.World.{World, MessageHandler, after_reading}
use custom_mcps.Protocol.Errors.{value, code_internal_error}
use custom_mcps.Protocol.Message.{Request, request, parse_message, encode_response}
use custom_mcps.Middleware.{chain, wrap_each, recovery, logging, panic_response, extract_id}
use custom_mcps.Middleware.RequestId.{extract_id-request}
use custom_mcps.Registry.{GoRuntime}
use custom_mcps.Server.{Server}
use custom_mcps.Server.Dispatch.{dispatch, Reply}
use custom_mcps.Server.Dispatch.Replies.{Answers, AnswersOrPanics}
use custom_mcps.Server.Dispatch.Messages.{dispatch_request}
use custom_mcps.Server.Run.{around, user_chain, run_handler}

-- The panic response to a message with this id.
panic_response-Answers :
    (id : Json) (raw : Raw) (p : String)
    → extract_id raw ≡ encoded id
    → Answers id (panic_response raw p)
unfolding panic_response encode_response
panic_response-Answers id raw p h =
    rw (h, panic_response) (inr (code_internal_error, "internal error: " <> p, [], refl))

abbrev pub Returned : (Raw → Type 0) → Reply → Type 0
Returned P r = (resp : Raw) × (r.1 ≡ returns resp) × P resp

recovery_keeps :
    (P : Raw → Type 0) (next : MessageHandler) (ctx : Context) (raw : Raw) (w : World)
    → ((resp : Raw) → (next ctx raw w).1 ≡ returns resp → P resp)
    → ((p : String) → P (panic_response raw p))
    → Returned P (recovery next ctx raw w)
unfolding recovery
recovery_keeps P next ctx raw w ok_case panic_case = go (next ctx raw w) refl
  where
    go : (r : Reply) → next ctx raw w ≡ r → Returned P (recovery next ctx raw w)
    go (w', returns resp) e = rw (e, recovery) (resp, refl, ok_case resp (ap (λ r. r.1) e))
    go (w', panics p) e = rw (e, recovery) (panic_response raw p, refl, panic_case p)

-- Logging changes no outcome.
logging_outcome :
    (next : MessageHandler) (ctx : Context) (raw : Raw) (w : World)
    → (logging next ctx raw w).1 ≡ (next ctx raw (after_reading w)).1
unfolding logging
logging_outcome next ctx raw w = go (next ctx raw (after_reading w)) refl
  where
    go :
        (r : Reply)
        → next ctx raw (after_reading w) ≡ r
        → (logging next ctx raw w).1 ≡ (next ctx raw (after_reading w)).1
    go (w', returns resp) e = rw (e, logging)
    go (w', panics p) e = rw (e, logging)

module _ (runtime : GoRuntime) {T H : Type 0} (s : Server T H) (ctx : Context) (raw : Raw) where
  pub run_handler_eq : run_handler runtime s ≡ recovery (logging (user_chain runtime s))
  unfolding run_handler chain wrap_each
  run_handler_eq = refl

  pub bare_chain : s.middlewares ≡ [] → user_chain runtime s ≡ dispatch runtime s
  unfolding user_chain
  bare_chain bare = ap (λ ms. around ms (dispatch runtime s)) bare

  -- Whatever the user's middleware and handlers do, the handler that the transport calls returns,
  -- and never panics.
  pub run_handler_returns :
      (w : World) → (resp : Raw) × ((run_handler runtime s ctx raw w).1 ≡ returns resp)
  run_handler_returns w =
      let (resp, e, _) =
        recovery_keeps (λ r. Unit {0}) (logging (user_chain runtime s)) ctx raw w (λ r h. tt)
          (λ p. tt) in
      rw run_handler_eq (resp, e)

  -- Without user middleware every request is answered, under the bytes of its own id, with a result
  -- or with an error: also where a handler panics.
  pub run_handler-Answers :
      (w : World) (r : Request)
      → s.middlewares ≡ []
      → parse_message runtime.read_any raw ≡ value (request r)
      → (id : Json) × (r.id ≡ encoded id) × Returned (Answers id) (run_handler runtime s ctx raw w)
  run_handler-Answers w r bare h =
      let (id, same, answered) = dispatch_request runtime s ctx raw (after_reading w) r h in
      let (_, own, read) = extract_id-request runtime.read_any raw r h in
      let extracted : extract_id raw ≡ encoded id = read ∙ sym own ∙ same in
      (
        id,
        same,
        rw run_handler_eq (
            recovery_keeps (Answers id) (logging (user_chain runtime s)) ctx raw w
              (λ resp e. subst (AnswersOrPanics id) (outcome resp e) answered)
              (λ p. panic_response-Answers id raw p extracted)),
      )
    where
      outcome :
          (resp : Raw)
          → (logging (user_chain runtime s) ctx raw w).1 ≡ returns resp
          → (dispatch runtime s ctx raw (after_reading w)).1 ≡ returns resp
      outcome resp e =
          ap (λ (f : MessageHandler). (f ctx raw (after_reading w)).1) (sym (bare_chain bare))
          ∙ sym (logging_outcome (user_chain runtime s) ctx raw w)
          ∙ e
