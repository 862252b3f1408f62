-- ===== src/Http.antt =====
-- net/http as the program meets it: a request, and a response writer that the handlers act on.
use custom_mcps.Prelude.{ℕ, String, Option, none, some, List, [], ◌∷◌, ◌++◌, Bool, ◌≡◌, sym, ap}
use custom_mcps.Prelude.Maps.{get, put}
use custom_mcps.Json.{Raw}

-- Header names are in their canonical form. The body is `none` where reading it fails.
pub record HttpRequest : Type 0 where
  pub method : String
  pub path : String
  pub headers : List (String × String)
  pub query : List (String × String)
  pub remote_addr : String
  pub body : Option Raw

abbrev get_or_empty : Option String → String
get_or_empty (some v) = v
get_or_empty none = ""

-- `r.Header.Get`
unfoldable pub header : String → HttpRequest → String
header name r = get_or_empty (get name r.headers)

-- `r.URL.Query().Get`
unfoldable pub query_value : String → HttpRequest → String
query_value name r = get_or_empty (get name r.query)

-- What has been written to the body: a line of text, a JSON document, or an event of a
-- stream, by its name and its data.
pub data Chunk : Type 0 where
  line : String → Chunk
  document : Raw → Chunk
  event : String → String → Chunk

-- `can_flush` says whether the writer is an `http.Flusher`. The status is `none` until it is sent;
-- `header_calls` are the arguments of all calls of `WriteHeader`, for the writers that wrap this one.
pub record Writer : Type 0 where
  pub status : Option ℕ
  pub headers : List (String × String)
  pub body : List Chunk
  pub header_calls : List ℕ
  pub can_flush : Bool

abbrev pub fresh_writer : Bool → Writer
fresh_writer can_flush = record {
  status = none;
  headers = [];
  body = [];
  header_calls = [];
  can_flush = can_flush;
}

pub not_begun : (w : Writer) → w.status ≡ none → record w { status = none } ≡ w
not_begun w e = sym (ap (λ (s : Option ℕ). record w { status = s }) e)

-- `w.Header().Set`; after the status is sent it has no effect on the response.
unfoldable pub set_header : String → String → Writer → Writer
set_header name v w = elim w.status [
  | none ↦ record w { headers = put name v w.headers }
  | some s ↦ w
]

-- The first status that is sent counts.
unfoldable pub send_status : ℕ → Writer → Writer
send_status code w = elim w.status [ none ↦ record w { status = some code } | some s ↦ w ]

-- `w.WriteHeader`
unfoldable pub write_header : ℕ → Writer → Writer
unfolding send_status
write_header code w = record (send_status code w) { header_calls = w.header_calls ++ (code ∷ []) }

-- `w.Write`: it sends status 200 if none is sent.
unfoldable pub write : Chunk → Writer → Writer
unfolding send_status
write c w = record (send_status 200 w) { body = w.body ++ (c ∷ []) }

-- `http.Error`
unfoldable pub http_error : String → ℕ → Writer → Writer
unfolding set_header write_header write
http_error msg code w = write (line msg) (
    write_header code (
      set_header "X-Content-Type-Options" "nosniff"
        (set_header "Content-Type" "text/plain; charset=utf-8" w)))

-- An HTTP handler, by what it does to the response.
abbrev pub HttpHandler : Type 0
HttpHandler = HttpRequest → Writer → Writer
