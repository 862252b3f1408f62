-- ===== src/Middleware/Metrics.antt =====
-- framework/middleware/metrics.go: the collector of request counts, and the middleware that feeds
-- it. The atomic counters are int64: their bit patterns wrap around at 2 ^ 64.
pub mod Laws
use custom_mcps.Prelude.{
  ℕ, ◌+◌, ◌-◌, ◌%◌, ◌^◌, String, Bool, true, false, List, [], ◌∷◌, ◌++◌, Result, ok, err, ◌&&◌,
  ◌==◌, nat_eq, ltb, if◌then◌else◌,
}
use custom_mcps.Prelude.Int.{ℤ, pos, negsuc, itoa}
use custom_mcps.Prelude.Float.{Float64}
use custom_mcps.Prelude.Sort.{sort_keys}
use custom_mcps.Json.{Json, integer, encoded}
use custom_mcps.Protocol.Payloads.Encoding.{fields}
use custom_mcps.Http.{HttpRequest, HttpHandler, Writer, set_header, write, document}

-- `Add` on an `atomic.Int64`, and the integer of a pattern.
abbrev pub add_int64 : ℕ → ℕ → ℕ
add_int64 a b = (a + b) % 2 ^ 64

unfoldable pub int64_of : ℕ → ℤ
int64_of p = if ltb p (2 ^ 63) then pos p else negsuc (2 ^ 64 - 1 - p)

pub record Collector : Type 0 where
  pub total_requests : ℕ
  pub status_codes : List (ℕ × ℕ)
  pub total_duration : ℕ

abbrev pub empty_collector : Collector
empty_collector = record { total_requests = 0; status_codes = []; total_duration = 0 }

-- `LoadOrStore` of a counter, and `Add(1)` to it.
unfoldable pub count_up : ℕ → List (ℕ × ℕ) → List (ℕ × ℕ)
count_up code [] = (code, 1) ∷ []
count_up code ((c, n) ∷ counts) =
    if nat_eq c code then (c, add_int64 n 1) ∷ counts else (c, n) ∷ count_up code counts

-- The method `record`; `d` is the pattern of the duration in nanoseconds.
unfoldable pub record_request : (status_code d : ℕ) → Collector → Collector
unfolding count_up
record_request status_code d m = record m {
  total_requests = add_int64 m.total_requests 1;
  total_duration = add_int64 m.total_duration d;
  status_codes = count_up status_code m.status_codes;
}

abbrev code_members : List (ℕ × ℕ) → List (String × Json)
code_members [] = []
code_members ((c, n) ∷ counts) = (itoa (pos c), integer (int64_of n)) ∷ code_members counts

-- What `statusRecorder` holds after these calls of `WriteHeader`: the last code, and 200 before any.
abbrev pub recorded : ℕ → List ℕ → ℕ
recorded code [] = code
recorded code (c ∷ calls) = recorded c calls

-- The writer behind a `statusRecorder`: no `http.Flusher`, whatever is below it.
abbrev pub behind_recorder : Writer → Writer
behind_recorder w = record w { can_flush = false; header_calls = [] }

-- What the recorder did to the writer below it.
abbrev pub below_recorder : Writer → Writer → Writer
below_recorder w w' = record w' {
  can_flush = w.can_flush;
  header_calls = w.header_calls ++ w'.header_calls;
}

-- `encode_float` is what encoding/json writes for a float64.
module _ {F : Type 0} (f : Float64 F) (encode_float : F → Result Json) where
  abbrev average_ms : Collector → F
  average_ms m =
      if ltb 0 m.total_requests && ltb m.total_requests (2 ^ 63)
      then f.div
          (f.div (f.of_int (int64_of m.total_duration)) (f.of_int (int64_of m.total_requests)))
          (f.of_int (pos 1000000))
      else f.of_int (pos 0)

  abbrev with_average : Collector → Result Json → Result Json
  with_average m (err e) = err e
  with_average m (ok avg) = ok (
      fields (
        ("total_requests", integer (int64_of m.total_requests))
        ∷ ("status_codes", fields (sort_keys (code_members m.status_codes)))
        ∷ ("avg_duration_ms", avg)
        ∷ []))

  -- The JSON of a snapshot.
  unfoldable pub snapshot : Collector → Result Json
  snapshot m = with_average m (encode_float (average_ms m))

  -- The encoder's error is dropped.
  abbrev write_json : Result Json → Writer → Writer
  write_json (ok v) w = write (document (encoded v)) w
  write_json (err e) w = w

  -- `elapsed` is the time that the next handler took, in nanoseconds.
  unfoldable pub metrics :
      String → HttpHandler → (elapsed : ℕ) → HttpRequest → Collector → Writer → Collector × Writer
  metrics path next elapsed r m w =
      let w' = next r (behind_recorder w) in
      if (r.method == "GET") && (r.path == path)
      then (m, write_json (snapshot m) (set_header "Content-Type" "application/json" w))
      else (record_request (recorded 200 w'.header_calls) elapsed m, below_recorder w w')
