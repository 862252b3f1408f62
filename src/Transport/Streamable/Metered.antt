-- ===== src/Transport/Streamable/Metered.antt =====
-- The GET of the streamable endpoint behind the middleware Metrics.
use custom_mcps.Prelude.{
  ℕ, String, true, false, none, some, ◌≡◌, ◌≢◌, refl, ap, ◌∙◌, ◌==◌, ◌&&◌, eq_of_ne, Bool, Result,
  if◌then◌else◌, [], ◌∷◌, ◌++◌, subst,
}
use custom_mcps.Prelude.Maps.{put}
use custom_mcps.Prelude.Float.{Float64}
use custom_mcps.Json.{Json}
use custom_mcps.Context.{Context}
use custom_mcps.Http.{
  HttpRequest, HttpHandler, Writer, header, http_error, not_begun, set_header, write_header, write,
  line,
}
use custom_mcps.Auth.{Env}
use custom_mcps.Middleware.Metrics.{Collector, metrics, behind_recorder, below_recorder}
use custom_mcps.Transport.Session.{get_session}
use custom_mcps.Transport.Streamable.{
  StreamableTransport, State, after_auth, get_on, open_stream, handle_get,
}
use custom_mcps.Transport.Streamable.Laws.{no_auth}

-- The refusal of a stream, as the client gets it where the response was not begun.
abbrev refusal : Writer → Writer
refusal w = record w {
  status = some 500;
  headers =
      put "X-Content-Type-Options" "nosniff"
        (put "Content-Type" "text/plain; charset=utf-8" w.headers);
  body = w.body ++ (line "Streaming not supported" ∷ []);
  header_calls = w.header_calls ++ (500 ∷ []);
}

unbegun_refusal :
    (w : Writer)
    → let x : Writer = record w { status = none } in
      below_recorder x (http_error "Streaming not supported" 500 (behind_recorder x)) ≡ refusal x
unfolding http_error set_header write_header write
unbegun_refusal w = refl

module _ {H : Type 0} (t : StreamableTransport H) (env : Env) (ctx : Context) (conn : ℕ)
    (st : State) where
  -- The GET as an HTTP handler, on this state.
  abbrev pub stream_handler : HttpHandler
  stream_handler r w = (handle_get t env ctx r conn (record st { writer = w })).writer

  refused_behind :
      (r : HttpRequest) (p : ℕ) (w : Writer)
      → t.auth ≡ none
      → header "Mcp-Session-Id" r ≢ ""
      → get_session (header "Mcp-Session-Id" r) st.manager ≡ some p
      → stream_handler r (behind_recorder w)
        ≡ http_error "Streaming not supported" 500 (behind_recorder w)
  unfolding handle_get
  refused_behind r p w open_ given found =
      let st' : State = record st { writer = behind_recorder w } in
      ap (λ a. (after_auth st' (get_on t env ctx r conn st') a).writer)
        (no_auth t env ctx r (behind_recorder w) open_)
      ∙ rw (eq_of_ne _ _ given, found, open_stream)

  -- Behind Metrics, a GET for the stream of a session that exists, on a transport without an
  -- authenticator, with another path than that of the metrics, and with a response that was not
  -- begun: the client gets status 500 with the text "Streaming not supported", whether the writer
  -- that net/http gave can be flushed or not.
  pub metered_stream_refused :
      {F : Type 0} (f : Float64 F) (encode_float : F → Result Json) (path : String) (elapsed : ℕ)
      (r : HttpRequest) (m : Collector) (p : ℕ) (w : Writer)
      → t.auth ≡ none
      → header "Mcp-Session-Id" r ≢ ""
      → get_session (header "Mcp-Session-Id" r) st.manager ≡ some p
      → r.path ≢ path
      → w.status ≡ none
      → (metrics f encode_float path stream_handler elapsed r m w).1 ≡ record w {
        status = some 500;
        headers =
            put "X-Content-Type-Options" "nosniff"
              (put "Content-Type" "text/plain; charset=utf-8" w.headers);
        body = w.body ++ (line "Streaming not supported" ∷ []);
        header_calls = w.header_calls ++ (500 ∷ []);
      }
  unfolding metrics
  metered_stream_refused f encode_float path elapsed r m p w open_ given found other unsent =
      rw (eq_of_ne _ _ other) (
        drop_test (r.method == "GET") _ _
        ∙ ap (below_recorder w) (refused_behind r p w open_ given found)
        ∙ subst
            (λ x.
              below_recorder x (http_error "Streaming not supported" 500 (behind_recorder x))
              ≡ refusal x)
            (not_begun w unsent) (unbegun_refusal w))
    where
      drop_test : (b : Bool) (x y : Collector × Writer) → (if b && false then x else y).1 ≡ y.1
      drop_test true x y = refl
      drop_test false x y = refl
