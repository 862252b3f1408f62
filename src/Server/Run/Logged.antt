-- ===== src/Server/Run/Logged.antt =====
-- What the handler that the transports call writes to the log for a request: logging.go and
-- recovery.go around the router.
use custom_mcps.Prelude.{
  ℕ, ◌-◌, String, Bool, true, false, [], returns, panics, ◌≡◌, refl, ◌<>◌, ◌⊎◌, inl, inr, ap, sym,
  ◌∙◌,
}
use custom_mcps.Json.{Json, Raw, encoded, names_field}
use custom_mcps.Context.{Context}
use custom_mcps.World.{
  World, MessageHandler, add_log, now, after_reading, panic_recovered, rpc_request,
}
use custom_mcps.Protocol.Errors.{value, code_internal_error}
use custom_mcps.Protocol.Message.{Request, request, parse_message, encode_response}
use custom_mcps.Middleware.{
  recovery, logging, panic_response, extract_id, extract_method, has_error, has_member,
}
use custom_mcps.Middleware.RequestId.{extract_id-request, extract_method-request}
use custom_mcps.Registry.{GoRuntime}
use custom_mcps.Server.{Server}
use custom_mcps.Server.Dispatch.{dispatch, Reply}
use custom_mcps.Server.Dispatch.Replies.{
  result_document, error_document, error_object, AnswersOrPanics,
}
use custom_mcps.Server.Dispatch.Messages.{dispatch_request}
use custom_mcps.Server.Run.{run_handler, user_chain}
use custom_mcps.Server.Run.Safety.{run_handler_eq, bare_chain}

-- The reply with one "rpc request" record behind what the router logged.
abbrev pub recorded : String → ℕ → Bool → World → Json → Reply
recorded method start failed w answer = (
  add_log (rpc_request method (now w - start) failed) (after_reading w),
  returns (encoded answer),
)

-- How the handler ends, given how the router ends that it wraps: with a result and a record of a
-- success, with an error and a record of a failure, or, after a panic, with the record of the panic
-- alone and an internal error.
abbrev pub Logged : (id : Json) (method : String) (start : ℕ) → Reply → Reply → Type 0
Logged id method start (w, returns resp) handled =
    ((v : Json) × (handled ≡ recorded method start false w (result_document id v)))
    ⊎ ((failure : Json) × (handled ≡ recorded method start true w (error_document id failure)))
Logged id method start (w, panics p) handled = handled ≡ (
  add_log (panic_recovered p) w,
  returns
      (encoded (error_document id (error_object code_internal_error ("internal error: " <> p) []))),
)

has_error-result_document : (id v : Json) → has_error (encoded (result_document id v)) ≡ false
unfolding has_error has_member names_field
has_error-result_document id v = refl

has_error-error_document : (id e : Json) → has_error (encoded (error_document id e)) ≡ true
unfolding has_error has_member names_field
has_error-error_document id e = refl

module _ (raw : Raw) (id : Json) (extracted : extract_id raw ≡ encoded id) where
  wrapped_reply-Logged :
      (next : MessageHandler) (ctx : Context) (w : World) (r : Reply)
      → next ctx raw (after_reading w) ≡ r
      → AnswersOrPanics id r.1
      → Logged id (extract_method raw) (now w) r (recovery (logging next) ctx raw w)
  unfolding recovery logging panic_response encode_response
  wrapped_reply-Logged next ctx w (w', returns resp) e (inl (v, same)) =
      inl (v, rw (e, recovery, logging, same, has_error-result_document))
  wrapped_reply-Logged next ctx w (w', returns resp) e (inr (code, message, more, same)) =
      inr
        (error_object code message more, rw (e, recovery, logging, same, has_error-error_document))
  wrapped_reply-Logged next ctx w (w', panics p) e answered =
      rw (e, recovery, logging, panic_response, extracted)

module _ (runtime : GoRuntime) {T H : Type 0} (s : Server T H) (ctx : Context) (raw : Raw) where
  -- Without user middleware: a request that the router answers gets one record in the log, behind
  -- those of the router, with the method of the request, the time between the two readings of the
  -- clock, and whether the answer is an error. A request whose handling panics gets no such record,
  -- but that of the panic, and an internal error under its id.
  pub run_handler-Logged :
      (w : World) (r : Request)
      → s.middlewares ≡ []
      → parse_message runtime.read_any raw ≡ value (request r)
      → (id : Json) × (r.id ≡ encoded id)
        × Logged id r.method
            (now w)
            (dispatch runtime s ctx raw (after_reading w))
            (run_handler runtime s ctx raw w)
  run_handler-Logged w r bare h =
      let (id, same, answered) = dispatch_request runtime s ctx raw (after_reading w) r h in
      let (_, own, read) = extract_id-request runtime.read_any raw r h in
      let handled =
        wrapped_reply-Logged raw id (read ∙ sym own ∙ same) (user_chain runtime s) ctx w
          (dispatch runtime s ctx raw (after_reading w))
          (ap (λ (f : MessageHandler). f ctx raw (after_reading w))
            (bare_chain runtime s ctx raw bare))
          answered in
      (
        id,
        same,
        rw (run_handler_eq runtime s ctx raw, ← extract_method-request runtime.read_any raw r h)
            handled,
      )
