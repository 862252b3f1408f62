-- ===== src/Middleware/Cors.antt =====
-- framework/middleware/cors.go: cross-origin headers, and the answer to a preflight request.
use custom_mcps.Prelude.{
  All, String, Bool, false, ◌||◌, List, [], ◌∷◌, ◌≡◌, refl, ◌≢◌, ◌==◌, if◌then◌else◌, arith,
}
use custom_mcps.Http.{HttpRequest, Writer, HttpHandler, header, set_header, write_header}
use text.Mathlib.TextEquality.{eq_iff}

-- `allowed[o]`, and with "*" the flag `allowAll`.
unfoldable pub is_allowed : String → List String → Bool
is_allowed o [] = false
is_allowed o (p ∷ origins) = (p == o) || is_allowed o origins

-- The switch; the empty text where no case applies.
unfoldable pub matched_origin : List String → String → String
matched_origin origins origin =
    if is_allowed "*" origins then "*" else if is_allowed origin origins then origin else ""

unfoldable pub cors_headers : String → Writer → Writer
cors_headers matched w =
    if matched == ""
    then w
    else set_header "Access-Control-Expose-Headers" "Mcp-Session-Id" (
        set_header "Access-Control-Allow-Headers"
          "Content-Type, Authorization, X-API-Key, Mcp-Session-Id"
          (set_header "Access-Control-Allow-Methods" "GET, POST, DELETE, OPTIONS"
            (set_header "Access-Control-Allow-Origin" matched w)))

unfoldable pub cors : List String → HttpHandler → HttpHandler
cors origins next r w =
    let w' = cors_headers (matched_origin origins (header "Origin" r)) w in
    if r.method == "OPTIONS" then write_header 204 w' else next r w'

is_allowed_of_All :
    (o : String) (origins : List String) → All (λ p. p ≢ o) origins → is_allowed o origins ≡ false
unfolding is_allowed
is_allowed_of_All o [] h = refl
is_allowed_of_All o (p ∷ origins) h = ground (arith, eq_iff p o, is_allowed_of_All o origins h.1)

-- Where neither "*" nor the origin of the request is allowed, no header is added: a preflight
-- request is answered with status 204 and every other request goes to the next handler as it came.
pub cors-not_allowed :
    (origins : List String) (next : HttpHandler) (r : HttpRequest) (w : Writer)
    → All (λ p. p ≢ "*") origins
    → All (λ p. p ≢ header "Origin" r) origins
    → cors origins next r w ≡ (if r.method == "OPTIONS" then write_header 204 w else next r w)
unfolding cors cors_headers matched_origin
cors-not_allowed origins next r w star other =
    rw (is_allowed_of_All "*" origins star)
      (rw (is_allowed_of_All (header "Origin" r) origins other) refl)
