-- ===== src/Auth/Laws.antt =====
-- When the bearer authenticator lets a request in, and what it leaves in the context.
use custom_mcps.Prelude.{
  String, Option, some, List, [], ◌∷◌, ◌≡◌, refl, sym, ◌⊎◌, inl, inr, arith, eq_iff, In, text_cases,
}
use custom_mcps.Prelude.Maps.{get-put}
use custom_mcps.Context.{Context, with_value, value_of}
use custom_mcps.Http.{HttpRequest}
use custom_mcps.Auth.{
  Env, BearerAuth, authenticate, check_configured, check_tokens, valid_tokens, extract_token,
  client_id, with_client_id, invalid_token, no_tokens, missing_token, client_id_key,
}

-- What is attached to a context is read back.
pub client_id-with_client_id :
    (ctx : Context) (id : String) → client_id (with_client_id ctx id) ≡ id
unfolding client_id with_client_id value_of with_value
client_id-with_client_id ctx id =
    ground
      (arith, get-put client_id_key client_id_key id ctx.values, eq_iff client_id_key client_id_key)

check_tokens_missed :
    (ctx : Context) (token : String) (vs : List String)
    → ¬ In token vs
    → check_tokens ctx token vs ≡ (ctx, some invalid_token)
unfolding check_tokens
check_tokens_missed ctx token [] h = refl
check_tokens_missed ctx token (v ∷ vs) h = elim (text_cases token v) [
  | inl (same, _) ↦ absurd (h (inl (sym same)))
  | inr (_, e) ↦ rw e (check_tokens_missed ctx token vs (λ later. h (inr later)))
]

-- How a request is refused.
abbrev pub Refused : Context → Context × Option String → Type 0
Refused ctx result =
    (result.0 ≡ ctx)
    × (e : String) × (result.1 ≡ some e)
    × ((e ≡ missing_token) ⊎ ((e ≡ no_tokens) ⊎ (e ≡ invalid_token)))

configured_missed :
    (ctx : Context) (token : String) (vs : List String)
    → ¬ In token vs
    → Refused ctx (check_configured ctx token vs)
configured_missed ctx token [] h = (refl, no_tokens, refl, inr (inl refl))
configured_missed ctx token (v ∷ vs) h =
    rw (check_tokens_missed ctx token (v ∷ vs) h) (refl, invalid_token, refl, inr (inr refl))

-- Any other request is refused: with an error, and with the context as it was.
pub authenticate_refuses :
    (b : BearerAuth) (env : Env) (ctx : Context) (r : HttpRequest)
    → ((extract_token r ≡ "") ⊎ (¬ In (extract_token r) (valid_tokens env b)))
    → Refused ctx (authenticate b env ctx r)
unfolding authenticate
authenticate_refuses b env ctx r h = elim (text_cases (extract_token r) "") [
  | inl (_, e) ↦ rw e (refl, missing_token, refl, inl refl)
  | inr (n, e) ↦ rw e (
      configured_missed ctx (extract_token r) (valid_tokens env b)
        (elim h [ inl blank ↦ absurd (n blank) | inr missed ↦ missed ]))
]
