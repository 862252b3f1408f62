-- ===== src/Transport/Sse/Stay.antt =====
-- framework/transport/sse.go: no session is ever taken away.
use custom_mcps.Prelude.{
  ℕ, String, Bool, true, false, Option, none, some, Outcome, returns, panics, ◌≡◌, ◌≢◌, refl, ◌∙◌,
  eq_of_ne, ◌==◌, Bool-cases, inl, inr,
}
use custom_mcps.Json.{Raw, encoded, absent, malformed}
use custom_mcps.Context.{Context}
use custom_mcps.Http.{HttpRequest, Writer, query_value}
use custom_mcps.Auth.{Env}
use custom_mcps.World.{World, MessageHandler, now}
use custom_mcps.Transport.Session.{get_session}
use custom_mcps.Transport.Sse.Laws.{get_session-create}
use custom_mcps.Transport.Streamable.{State, after_auth}
use custom_mcps.Transport.Sse.{
  SseTransport, open_if, authenticate, sse_on, handle_sse, endpoint_data, messages_on,
  handle_messages, deliver, message_for, end_stream, serve_sse, serve_messages,
}

module _ {H : Type 0} (t : SseTransport H) (env : Env) (ctx : Context) (r : HttpRequest)
    (fresh id : String) (other : fresh ≢ id) where
  -- The entry of the id is as it was.
  abbrev pub Keeps : State → State → Type 0
  Keeps st st' = get_session id st'.manager ≡ get_session id st.manager

  open_if-Keeps :
      (b : Bool) (conn : ℕ) (data_ : String) (st : State) → Keeps st (open_if b fresh conn data_ st)
  unfolding get_session
  open_if-Keeps false conn data_ st = refl
  open_if-Keeps true conn data_ st =
      get_session-create fresh id (now st.world) st.manager ∙ rw (eq_of_ne _ _ other)

  after_auth-Keeps :
      (st : State) (go_on : Writer → Context → State)
      → ((w : Writer) (c : Context) → Keeps st (go_on w c))
      → (a : Writer × Option Context) → Keeps st (after_auth st go_on a)
  after_auth-Keeps st go_on each (w, none) = refl
  after_auth-Keeps st go_on each (w, some c) = each w c

  deliver-Keeps : (p : ℕ) (st : State) (reply : World × Outcome Raw) → Keeps st (deliver p st reply)
  unfolding get_session
  deliver-Keeps p st (w, panics e) = refl
  deliver-Keeps p st (w, returns absent) = refl
  deliver-Keeps p st (w, returns (malformed e)) = refl
  deliver-Keeps p st (w, returns (encoded v)) = refl

  message_for-Keeps :
      (handler : MessageHandler) (c : Context) (body : Option Raw) (st : State) (p : Option ℕ)
      → Keeps st (message_for handler c body st p)
  message_for-Keeps handler c body st none = refl
  message_for-Keeps handler c none st (some p) = refl
  message_for-Keeps handler c (some raw) st (some p) = deliver-Keeps p st (handler c raw st.world)

  messages_on-Keeps :
      (handler : MessageHandler) (st : State) (w : Writer) (c : Context)
      → Keeps st (messages_on t env ctx r handler st w c)
  messages_on-Keeps handler st w c = elim (Bool-cases (query_value "sessionId" r == "")) [
    | inl none_ ↦ rw none_ refl
    | inr given ↦ rw given (
        message_for-Keeps handler c r.body (record st { writer = w })
          (get_session (query_value "sessionId" r) st.manager))
  ]

  -- Nothing that the transport does with a request takes a session away: the entry of every id other
  -- than the freshly drawn one is the same after a GET, after a POST and after the end of a stream.
  pub sessions_stay :
      (conn p : ℕ) (handler : MessageHandler) (st : State)
      → Keeps st (serve_sse t env ctx r fresh conn st)
        × Keeps st (serve_messages t env ctx r handler st)
        × Keeps st (end_stream p conn st)
  unfolding serve_sse serve_messages handle_sse handle_messages end_stream get_session
  sessions_stay conn p handler st = (
    elim (Bool-cases (r.method == "GET")) [
      | inr no_ ↦ rw no_ refl
      | inl get_ ↦ rw get_ (
          after_auth-Keeps st (sse_on t env ctx r fresh conn st)
            (λ w c.
              open_if-Keeps w.can_flush conn (endpoint_data t env ctx r fresh)
                (record st { writer = w }))
            (authenticate t env ctx r st.writer))
    ],
    elim (Bool-cases (r.method == "POST")) [
      | inr no_ ↦ rw no_ refl
      | inl post ↦ rw post (
          after_auth-Keeps st (messages_on t env ctx r handler st)
            (λ w c. messages_on-Keeps handler st w c) (authenticate t env ctx r st.writer))
    ],
    refl,
  )
