-- ===== src/Tests/RateLimit.antt =====
-- The rate limiter at concrete inputs, over natural numbers in place of float64.
use custom_mcps.Prelude.{ℕ, ◌+◌, ◌-◌, ◌*◌, ◌/◌, String, true, false, none, [], ◌∷◌, ◌≡◌, refl, ltb}
use custom_mcps.Prelude.Int.{ℤ, pos, negsuc}
use custom_mcps.Prelude.Float.{Float64}
use custom_mcps.Http.{HttpRequest, HttpHandler, write_header}
use custom_mcps.Middleware.RateLimit.Tokens.{admits}

abbrev pub whole_part : ℤ → ℕ
whole_part (pos n) = n
whole_part (negsuc n) = 0

-- Whole tokens, and whole seconds.
abbrev pub whole : Float64 ℕ
whole = record {
  of_int = whole_part;
  seconds = λ d. whole_part d / 1000000000;
  add = λ a b. a + b;
  sub = λ a b. a - b;
  mul = λ a b. a * b;
  div = λ a b. a / b;
  less = λ a b. ltb a b;
}

abbrev from_a : HttpRequest
from_a = record {
  method = "GET";
  path = "/mcp";
  headers = [];
  query = [];
  remote_addr = "10.0.0.1";
  body = none;
}

abbrev accepted : HttpHandler
accepted r w = write_header 202 w

abbrev no_host : String → String
no_host addr = ""

-- One token to begin with and one more a second: of four requests, the second comes too early.
the_window : admits 1 1 (0 ∷ 0 ∷ 2 ∷ 1 ∷ []) 1 ≡ true ∷ false ∷ true ∷ true ∷ []
the_window = refl
