-- ===== src/Tests/Middleware.antt =====
-- framework/middleware: its theorems at concrete inputs.
use custom_mcps.Prelude.{String, true, none, some, List, [], ◌∷◌, ◌≡◌, refl, ◌≢◌, arith}
use custom_mcps.Prelude.Maps.{get, put}
use custom_mcps.Http.{HttpRequest, HttpHandler, fresh_writer, header, write_header, set_header}
use custom_mcps.Middleware.Cors.{cors, cors_headers, is_allowed, matched_origin, cors-not_allowed}
use text.Mathlib.TextEquality.{eq_iff}

abbrev preflight : String → HttpRequest
preflight origin = record {
  method = "OPTIONS";
  path = "/mcp";
  headers = ("Origin", origin) ∷ [];
  query = [];
  remote_addr = "10.0.0.1:999";
  body = none;
}

abbrev accepted : HttpHandler
accepted r w = write_header 202 w

abbrev origins : List String
origins = "https://a.example" ∷ []

other_origin :
    (◌≢◌ {A = String} "https://a.example" "*")
    × (◌≢◌ {A = String} "https://a.example" (header "Origin" (preflight "https://b.example")))
unfolding header get
other_origin = (
  ground (arith, eq_iff "https://a.example" "*"),
  ground (arith, eq_iff "https://a.example" "https://b.example"),
)

-- An allowed origin gets its own name back.
allowed_back :
    get "Access-Control-Allow-Origin"
      (cors origins accepted (preflight "https://a.example") (fresh_writer true)).headers
    ≡ some "https://a.example"
unfolding cors cors_headers matched_origin is_allowed header get put set_header write_header
allowed_back = refl

cors-not_allowed_example :
    cors origins accepted (preflight "https://b.example") (fresh_writer true)
    ≡ write_header 204 (fresh_writer true)
cors-not_allowed_example =
    cors-not_allowed origins accepted (preflight "https://b.example") (fresh_writer true)
      (other_origin.0, tt) (other_origin.1, tt)
