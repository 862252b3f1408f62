-- ===== src/Middleware/RateLimit/Refill.antt =====
-- What the rate limiter of framework/middleware/ratelimit.go lets through over time: a bucket of whole
-- tokens, where requests come at whole seconds.
use custom_mcps.Prelude.{
  ℕ, ◌+◌, ◌*◌, ◌≤◌, ◌<◌, ◌^◌, ◌++◌, String, Bool, some, List, [], ◌∷◌, if◌then◌else◌,
}
use custom_mcps.Prelude.Int.{pos}
use custom_mcps.Prelude.Float.{Float64, Ieee}
use custom_mcps.Prelude.Maps.{put}
use custom_mcps.Json.{encoded, object, member, text, end}
use custom_mcps.Http.{HttpRequest, Writer, HttpHandler, document}
use custom_mcps.Middleware.RateLimit.{TokenBucket, client_ip, rate_limit}
use custom_mcps.Middleware.RateLimit.Tokens.{second}

-- A gap that a `Duration` holds and that the arithmetic of float64 treats exactly.
abbrev pub Exact : (rate burst : ℕ) → ℕ → Type 0
Exact rate burst g = (g * second < 2 ^ 63) × (burst + g * rate ≤ 2 ^ 53)

-- What a client that is over its limit gets, where the response was not begun.
abbrev pub refusal : Writer → Writer
refusal w = record w {
  status = some 429;
  headers = put "Content-Type" "application/json" w.headers;
  body =
      w.body
      ++ (document (encoded (object (member "error" (text "rate limit exceeded") end))) ∷ []);
  header_calls = w.header_calls ++ (429 ∷ []);
}

module _ {F : Type 0} (f : Float64 F) (ieee : Ieee f) (rate burst : ℕ)
    (small_rate : rate ≤ 2 ^ 53) where
  abbrev bucket : ℕ → ℕ → TokenBucket F
  bucket n last = record {
    tokens = f.of_int (pos n);
    max_tokens = f.of_int (pos burst);
    refill_rate = f.of_int (pos rate);
    last_refill = last;
  }

  module _ (host_of : String → String) (next : HttpHandler) (r : HttpRequest) (w : Writer) where
    -- The answers to requests of one client that come so many seconds after each other.
    abbrev pub run_limiter : List ℕ → ℕ → List (String × TokenBucket F) → List Writer
    run_limiter [] last buckets = []
    run_limiter (g ∷ gs) last buckets =
        let now = last + g * second in
        let (rest, out) = rate_limit f host_of (pos rate) (pos burst) next now now r buckets w in
        out ∷ run_limiter gs now rest

    abbrev pub reply : Bool → Writer
    reply b = if b then next r w else refusal w

    abbrev ip : String
    ip = client_ip f host_of (pos rate) (pos burst) r
