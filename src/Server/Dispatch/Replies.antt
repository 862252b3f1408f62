-- ===== src/Server/Dispatch/Replies.antt =====
-- The response documents, and what the helpers that build responses make of a result or an error.
use custom_mcps.Prelude.{
  String, Option, none, some, List, [], ◌∷◌, ok, err, Outcome, returns, panics, ◌≡◌, refl, ◌⊎◌, inl,
  inr,
}
use custom_mcps.Prelude.Int.{ℤ}
use custom_mcps.Json.{Json, integer, text, object, to_members, Raw, encoded}
use custom_mcps.World.{World}
use custom_mcps.Protocol.Errors.{
  AnyValue, RpcError, Call, value, error, GoError, protocol_error, other, cause, new_internal_error,
  Cause,
}
use custom_mcps.Protocol.Message.{new_response, encode_response}
use custom_mcps.Server.Dispatch.{fail, fail_with, respond, finish}

-- `{"jsonrpc": "2.0", "id": …, "result": …}`
abbrev pub result_document : (id result : Json) → Json
result_document id result =
    object (to_members (("jsonrpc", text "2.0") ∷ ("id", id) ∷ ("result", result) ∷ []))

-- `{"code": …, "message": …}`, and the members behind these.
abbrev pub error_object : ℤ → String → List (String × Json) → Json
error_object code message more =
    object (to_members (("code", integer code) ∷ ("message", text message) ∷ more))

-- `{"jsonrpc": "2.0", "id": …, "error": …}`
abbrev pub error_document : (id failure : Json) → Json
error_document id failure =
    object (to_members (("jsonrpc", text "2.0") ∷ ("id", id) ∷ ("error", failure) ∷ []))

-- A response to the request of this id: it has either a result or an error object.
abbrev pub Answers : Json → Raw → Type 0
Answers id resp =
    ((v : Json) × (resp ≡ encoded (result_document id v)))
    ⊎ ((code : ℤ) × (message : String) × (more : List (String × Json)) × (resp
          ≡ encoded (error_document id (error_object code message more))))

abbrev pub AnswersOrPanics : Json → Outcome Raw → Type 0
AnswersOrPanics id (returns resp) = Answers id resp
AnswersOrPanics id (panics p) = Unit

pub fail_plain :
    (id : Json) (e : RpcError) (w : World)
    → e.details ≡ none
    → fail (encoded id) e w
      ≡ (w, returns (encoded (error_document id (error_object e.code e.message []))))
unfolding fail encode_response
fail_plain id e w h = rw h

pub respond_ok :
    (id v : Json) (w : World)
    → respond (encoded id) (ok v) w ≡ (w, returns (encoded (result_document id v)))
unfolding respond new_response encode_response
respond_ok id v w = refl

fail-AnswersOrPanics :
    (id : Json) (code : ℤ) (message : String) (details : Option AnyValue) (w : World)
    → AnswersOrPanics id
        (fail (encoded id) (record { code = code; message = message; details = details }) w).1
unfolding fail encode_response
fail-AnswersOrPanics id code message none w = inr (code, message, [], refl)
fail-AnswersOrPanics id code message (some (ok d)) w = inr (code, message, ("data", d) ∷ [], refl)
fail-AnswersOrPanics id code message (some (err t)) w = tt

pub fail_answers :
    (id : Json) (e : RpcError) (w : World) → AnswersOrPanics id (fail (encoded id) e w).1
fail_answers id e w = fail-AnswersOrPanics id e.code e.message e.details w

pub fail_with_answers :
    (id : Json) (g : GoError) (w : World) → AnswersOrPanics id (fail_with (encoded id) g w).1
unfolding fail_with
fail_with_answers id g w = by_cause (cause g)
  where
    by_cause :
        (c : Cause)
        → AnswersOrPanics id
            (elim c as (λ c. World × Outcome Raw) [
              | protocol_error e ↦ fail (encoded id) e w
              | other t ↦ fail (encoded id) (new_internal_error t) w
            ]).1
    by_cause (protocol_error e) = fail_answers id e w
    by_cause (other t) = fail_answers id (new_internal_error t) w

pub respond_answers :
    (id : Json) (result : AnyValue) (w : World)
    → AnswersOrPanics id (respond (encoded id) result w).1
unfolding respond new_response encode_response cause
respond_answers id (ok v) w = inl (v, refl)
respond_answers id (err t) w = fail_answers id _ _

pub finish_answers {ℓ} :
    {A : Type ℓ} (id : Json) (encode : A → AnyValue) (out : Outcome (Call A)) (w : World)
    → AnswersOrPanics id (finish (encoded id) encode out w).1
unfolding finish
finish_answers id encode (returns (value a)) w = respond_answers id (encode a) w
finish_answers id encode (returns (error g)) w = fail_with_answers id g w
finish_answers id encode (panics p) w = tt
