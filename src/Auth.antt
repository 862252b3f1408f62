-- ===== src/Auth.antt =====
-- framework/auth: the authenticators (auth.go, bearer.go, noop.go).
pub mod Laws
use custom_mcps.Prelude.{
  ℕ, String, Bool, true, false, Option, none, some, List, [], ◌∷◌, leb, if◌then◌else◌, ◌==◌, ◌<>◌,
}
use custom_mcps.Prelude.Text.{strip_prefix, trim_space, text_length, take_text}
use custom_mcps.Context.{Context, with_value, value_of}
use custom_mcps.Http.{HttpRequest, header}

-- `os.Getenv`; unset variables read as the empty text.
abbrev pub Env : Type 0
Env = String → String

-- `Authenticate`, with the environment that it may read. The error is given by its text.
abbrev pub Authenticator : Type 0
Authenticator = Env → Context → HttpRequest → Context × Option String

abbrev pub client_id_key : String
client_id_key = "client_id"

unfoldable pub with_client_id : Context → String → Context
unfolding with_value
with_client_id ctx id = with_value ctx client_id_key id

unfoldable pub client_id : Context → String
unfolding value_of
client_id ctx = elim (value_of ctx client_id_key) [ some id ↦ id | none ↦ "" ]

-- noop.go
unfoldable pub noop : Authenticator
unfolding with_client_id
noop env ctx r = (with_client_id ctx "anonymous", none)

pub record BearerAuth : Type 0 where
  pub tokens : List String
  pub env_key : String

abbrev pub bearer : String → BearerAuth
bearer env_key = record { tokens = []; env_key = env_key }

abbrev pub bearer_with_tokens : List String → BearerAuth
bearer_with_tokens tokens = record { tokens = tokens; env_key = "" }

-- The tokens to compare with: the fixed ones, or else the variable's value.
unfoldable pub valid_tokens : Env → BearerAuth → List String
valid_tokens env b = elim b.tokens [
  | t ∷ ts ↦ t ∷ ts
  | [] ↦ if b.env_key == "" then [] else if env b.env_key == "" then [] else env b.env_key ∷ []
]

-- The text behind the scheme in the Authorization header, or else the X-API-Key header, whose
-- canonical name is X-Api-Key.
unfoldable pub extract_token : HttpRequest → String
unfolding header
extract_token r = elim (strip_prefix "Bearer " (header "Authorization" r)) [
  | some rest ↦ trim_space rest
  | none ↦ header "X-Api-Key" r
]

abbrev pub constant_time_equal : String → String → Bool
constant_time_equal a b = a == b

unfoldable pub client_id_from_token : String → String
client_id_from_token token =
    if leb 8 (text_length token) then "bearer:" <> take_text 4 token else "bearer"

abbrev pub missing_token : String
missing_token =
    "auth: missing authentication token: provide Authorization: Bearer <token> or X-API-Key header"

abbrev pub no_tokens : String
no_tokens = "auth: no valid tokens configured"

abbrev pub invalid_token : String
invalid_token = "auth: invalid authentication token"

-- The loop over the valid tokens.
unfoldable pub check_tokens : Context → String → List String → Context × Option String
check_tokens ctx token [] = (ctx, some invalid_token)
check_tokens ctx token (v ∷ vs) =
    if constant_time_equal token v
    then (with_client_id ctx (client_id_from_token token), none)
    else check_tokens ctx token vs

abbrev pub check_configured : Context → String → List String → Context × Option String
check_configured ctx token [] = (ctx, some no_tokens)
check_configured ctx token (v ∷ vs) = check_tokens ctx token (v ∷ vs)

unfoldable pub authenticate : BearerAuth → Authenticator
authenticate b env ctx r =
    if extract_token r == ""
    then (ctx, some missing_token)
    else check_configured ctx (extract_token r) (valid_tokens env b)
