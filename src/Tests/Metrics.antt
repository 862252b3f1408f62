-- ===== src/Tests/Metrics.antt =====
-- The metrics collector at concrete inputs.
use custom_mcps.Prelude.{ℕ, ◌%◌, ◌^◌, true, none, List, [], ◌∷◌, ◌≡◌, refl, length, ok}
use custom_mcps.Prelude.Int.{pos}
use custom_mcps.Json.{integer}
use custom_mcps.Http.{HttpRequest, HttpHandler, fresh_writer, write_header, http_error}
use custom_mcps.Middleware.Metrics.{Collector, empty_collector, record_request, metrics}
use custom_mcps.Middleware.Metrics.Laws.{count_of, occurrences, record_all, record_all-count}
use custom_mcps.Tests.RateLimit.{whole}

abbrev three_requests : List (ℕ × ℕ)
three_requests = (200, 5) ∷ (404, 7) ∷ (200, 9) ∷ []

record_all-count_example :
    ((record_all three_requests).total_requests ≡ length three_requests % 2 ^ 64)
    × (count_of 200 (record_all three_requests).status_codes
        ≡ occurrences 200 three_requests % 2 ^ 64)
record_all-count_example = record_all-count three_requests 200

abbrev from_a : HttpRequest
from_a = record {
  method = "GET";
  path = "/mcp";
  headers = [];
  query = [];
  remote_addr = "10.0.0.1";
  body = none;
}

-- The writer that a handler gets behind the middleware cannot be flushed.
abbrev streaming : HttpHandler
streaming r w = elim w.can_flush [
  | true ↦ write_header 200 w
  | _ ↦ http_error "Streaming not supported" 500 w
]

abbrev seen : Collector
seen = record { total_requests = 1; status_codes = (500, 1) ∷ []; total_duration = 3 }

stream_counted :
    (metrics whole
      (λ n. ok (integer (pos n)))
      "/metrics"
      streaming
      3
      from_a
      empty_collector
      (fresh_writer true)).0
    ≡ seen
unfolding metrics record_request http_error
stream_counted = refl
