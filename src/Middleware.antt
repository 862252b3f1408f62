-- ===== src/Middleware.antt =====
-- framework/middleware: the message-level middleware (middleware.go, recovery.go, logging.go). The
-- HTTP-level ones have modules of their own.
pub mod Laws
pub mod Cors
pub mod RateLimit
pub mod Metrics
pub mod RequestId
use custom_mcps.Prelude.{
  ℕ, ◌-◌, String, Bool, true, false, ◌||◌, List, [], ◌∷◌, Result, ok, err, Outcome, returns, panics,
  ◌<>◌, if◌then◌else◌,
}
use mathlib.Core.List.{reverse}
use custom_mcps.Json.{
  Json, null, boolean, integer, decimal, text, array, object, members, Raw, absent, malformed,
  encoded, names_field,
}
use custom_mcps.Context.{Context}
use custom_mcps.World.{
  World, MessageHandler, panic_recovered, rpc_request, add_log, now, after_reading,
}
use custom_mcps.Protocol.Errors.{new_internal_error}
use custom_mcps.Protocol.Message.{Response, new_error_response, encode_response}

abbrev pub Middleware : Type 0
Middleware = MessageHandler → MessageHandler

-- The loop of `Chain`, `ChainHTTP` and the transports' `Start`, from the last index down; the list
-- is reversed already.
unfoldable pub wrap_each {ℓ} : {H : Type ℓ} → List (H → H) → H → H
wrap_each [] final = final
wrap_each (m ∷ ms) final = wrap_each ms (m final)

unfoldable pub chain {ℓ} : {H : Type ℓ} → List (H → H) → H → H
unfolding wrap_each
chain mws final = wrap_each (reverse mws) final

-- `H` is the type of HTTP handlers.
abbrev pub HttpMiddleware : Type 0 → Type 0
HttpMiddleware H = H → H

abbrev pub chain_http : {H : Type 0} → List (HttpMiddleware H) → HttpMiddleware H
chain_http mws final = chain mws final

-- recovery.go: the id of the message, read by a struct with that one field. Errors are ignored, and
-- the value that was decoded so far is used.
unfoldable pub last_id : Raw → List (String × Json) → Raw
last_id old [] = old
last_id old ((k, v) ∷ ms) = last_id (if names_field "id" k then encoded v else old) ms

unfoldable pub extract_id : Raw → Raw
extract_id (encoded (object ms)) = last_id absent (members ms)
extract_id raw = absent

-- `resp, _ = json.Marshal(errResp)`
abbrev pub marshal_or_nil : Result Json → Raw
marshal_or_nil (ok v) = encoded v
marshal_or_nil (err e) = absent

unfoldable pub panic_response : Raw → String → Raw
panic_response raw p = marshal_or_nil (
    encode_response
      (new_error_response (extract_id raw) (new_internal_error ("internal error: " <> p))))

abbrev pub recover : Raw → World × Outcome Raw → World × Outcome Raw
recover raw (w, returns resp) = (w, returns resp)
recover raw (w, panics p) = (add_log (panic_recovered p) w, returns (panic_response raw p))

unfoldable pub recovery : Middleware
recovery next ctx raw w = recover raw (next ctx raw w)

-- logging.go: the method, read by a struct with that one field; a value that is no string leaves
-- the field as it is.
abbrev pub text_or : String → Json → String
text_or old (text t) = t
text_or old v = old

unfoldable pub last_method : String → List (String × Json) → String
last_method old [] = old
last_method old ((k, v) ∷ ms) =
    last_method (if names_field "method" k then text_or old v else old) ms

unfoldable pub extract_method : Raw → String
extract_method (encoded (object ms)) = last_method "" (members ms)
extract_method raw = ""

unfoldable pub has_member : String → List (String × Json) → Bool
has_member field [] = false
has_member field ((k, v) ∷ ms) = names_field field k || has_member field ms

-- Whether a response carries an error member.
unfoldable pub has_error : Raw → Bool
unfolding has_member
has_error (encoded (object ms)) = has_member "error" (members ms)
has_error resp = false

-- The clock is read before and after the call; a panic goes through before anything is logged.
abbrev log_request : Raw → ℕ → World × Outcome Raw → World × Outcome Raw
log_request raw start (w, panics p) = (w, panics p)
log_request raw start (w, returns resp) = (
  add_log (rpc_request (extract_method raw) (now w - start) (has_error resp)) (after_reading w),
  returns resp,
)

unfoldable pub logging : Middleware
logging next ctx raw w = log_request raw (now w) (next ctx raw (after_reading w))
