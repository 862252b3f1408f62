-- ===== src/Middleware/RateLimit.antt =====
-- framework/middleware/ratelimit.go: a token bucket for each client.
pub mod Laws
pub mod Refill
pub mod Tokens
use custom_mcps.Prelude.{
  ℕ, String, Bool, true, false, Option, none, some, List, [], ◌∷◌, ◌==◌, if◌then◌else◌, ltb, ◌^◌,
  ◌-◌,
}
use custom_mcps.Prelude.Int.{ℤ, pos, negsuc, sub_ℕ}
use custom_mcps.Prelude.Float.{Float64}
use custom_mcps.Prelude.Maps.{get, put}
use custom_mcps.Json.{text, encoded}
use custom_mcps.Protocol.Payloads.Encoding.{fields}
use custom_mcps.Http.{HttpRequest, Writer, HttpHandler, set_header, write_header, write, document}

-- `last_refill` is in nanoseconds.
pub record TokenBucket (F : Type 0) : Type 0 where
  pub tokens : F
  pub max_tokens : F
  pub refill_rate : F
  pub last_refill : ℕ

-- `http.StatusTooManyRequests`, with a JSON body.
abbrev pub too_many : Writer → Writer
too_many w =
    write (document (encoded (fields (("error", text "rate limit exceeded") ∷ []))))
      (write_header 429 (set_header "Content-Type" "application/json" w))

-- The `Duration` of `now.Sub(then)`: the nanoseconds between two times, at most the largest int64 and
-- at least the smallest.
unfoldable pub duration : ℤ → ℤ
duration (pos n) = if ltb n (2 ^ 63) then pos n else pos (2 ^ 63 - 1)
duration (negsuc n) = if ltb n (2 ^ 63) then negsuc n else negsuc (2 ^ 63 - 1)

-- The buckets by client; `created` and `now` are the two readings of the clock that a request makes,
-- and `host_of` is the host that `net.SplitHostPort` finds, empty for an error.
module _ {F : Type 0} (f : Float64 F) where
  unfoldable pub refilled : ℕ → TokenBucket F → TokenBucket F
  refilled now tb =
      let elapsed = f.seconds (duration (sub_ℕ now tb.last_refill)) in
      let tokens = f.add tb.tokens (f.mul elapsed tb.refill_rate) in
      record tb {
        tokens = if f.less tb.max_tokens tokens then tb.max_tokens else tokens;
        last_refill = now;
      }

  abbrev pub take_token : TokenBucket F → Bool × TokenBucket F
  take_token tb =
      if f.less tb.tokens (f.of_int (pos 1))
      then (false, tb)
      else (true, record tb { tokens = f.sub tb.tokens (f.of_int (pos 1)) })

  unfoldable pub allow : ℕ → TokenBucket F → Bool × TokenBucket F
  unfolding refilled
  allow now tb = take_token (refilled now tb)

  abbrev pub new_bucket : (requests_per_second burst : ℤ) → ℕ → TokenBucket F
  new_bucket requests_per_second burst created = record {
    tokens = f.of_int burst;
    max_tokens = f.of_int burst;
    refill_rate = f.of_int requests_per_second;
    last_refill = created;
  }

  module _ (host_of : String → String) (requests_per_second burst : ℤ) where
    abbrev pub client_ip : HttpRequest → String
    client_ip r = if host_of r.remote_addr == "" then r.remote_addr else host_of r.remote_addr

    abbrev pub bucket_or : Option (TokenBucket F) → TokenBucket F → TokenBucket F
    bucket_or (some tb) fresh = tb
    bucket_or none fresh = fresh

    -- `buckets.LoadOrStore`
    unfoldable pub bucket_of : ℕ → HttpRequest → List (String × TokenBucket F) → TokenBucket F
    bucket_of created r buckets =
        bucket_or (get (client_ip r) buckets) (new_bucket requests_per_second burst created)

    abbrev pub answer : HttpHandler → HttpRequest → Writer → Bool → Writer
    answer next r w true = next r w
    answer next r w false = too_many w

    unfoldable pub rate_limit :
        HttpHandler
        → (created now : ℕ) → HttpRequest
        → List (String × TokenBucket F)
        → Writer
        → List (String × TokenBucket F) × Writer
    unfolding bucket_of
    rate_limit next created now r buckets w =
        let (allowed, tb) = allow now (bucket_of created r buckets) in
        (put (client_ip r) tb buckets, answer next r w allowed)
