-- ===== src/Transport/Streamable/Laws.antt =====
-- What the streamable endpoint answers, and what it changes.
use custom_mcps.Prelude.{
  ℕ, String, true, false, none, some, ◌≡◌, ◌≢◌, refl, sym, ap, subst, ◌==◌, eq_of_ne, eq_refl,
  Outcome, returns, panics, [], ◌∷◌, ◌++◌, ◌∙◌, length, Bool-cases, Option-cases, inl, inr,
}
use custom_mcps.Prelude.Maps.{put, get-put}
use custom_mcps.Json.{Raw, absent, malformed, encoded}
use custom_mcps.Context.{Context}
use custom_mcps.Http.{
  HttpRequest, Writer, header, http_error, not_begun, write_header, write, set_header, document,
}
use custom_mcps.Auth.{Env, Authenticator}
use custom_mcps.World.{World, MessageHandler, now}
use custom_mcps.Transport.Session.{Manager, create, get_session, delete_session}
use custom_mcps.Transport.Session.Laws.{IsFiled, get_session-id, load-create}
use custom_mcps.Transport.Streamable.{
  StreamableTransport, State, authenticate, after_auth, post_body, post_in, post_on, get_on,
  post_session, session_id, write_reply, handle_post, handle_get, handle_delete, serve,
}

-- What a client gets of a response that was not begun: a document with status 200 under a session
-- id, status 202 with no body under that id where there is no document, and nothing after a panic.
abbrev pub answered_under : String → Outcome Raw → Writer → Writer
answered_under sid (panics p) w = w
answered_under sid (returns absent) w = record w {
  status = some 202;
  headers = put "Mcp-Session-Id" sid w.headers;
  header_calls = w.header_calls ++ (202 ∷ []);
}
answered_under sid (returns resp) w = record w {
  status = some 200;
  headers = put "Content-Type" "application/json" (put "Mcp-Session-Id" sid w.headers);
  body = w.body ++ (document resp ∷ []);
  header_calls = w.header_calls ++ (200 ∷ []);
}

unbegun_reply :
    (sid : String) (out : Outcome Raw) (w : Writer)
    → write_reply sid out (record w { status = none })
      ≡ answered_under sid out (record w { status = none })
unfolding write_reply set_header write_header write
unbegun_reply sid (panics p) w = refl
unbegun_reply sid (returns absent) w = refl
unbegun_reply sid (returns (malformed e)) w = refl
unbegun_reply sid (returns (encoded v)) w = refl

write_reply_lem :
    (sid : String) (out : Outcome Raw) (w : Writer)
    → w.status ≡ none
    → write_reply sid out w ≡ answered_under sid out w
write_reply_lem sid out w e =
    subst (λ x. write_reply sid out x ≡ answered_under sid out x) (not_begun w e)
      (unbegun_reply sid out w)

-- The server's answer to a POST, under a session id.
abbrev pub Replies : String → State → World × Outcome Raw → Manager → State → Type 0
Replies sid st (w, out) m st' =
    (st'.manager ≡ m) × (st'.world ≡ w) × (st'.writer ≡ answered_under sid out st.writer)

module _ {H : Type 0} (t : StreamableTransport H) (env : Env) (ctx : Context)
    (r : HttpRequest) where
  refused_lem :
      (a : Authenticator) (e : String) (w : Writer)
      → t.auth ≡ some a
      → (a env ctx r).1 ≡ some e
      → authenticate t env ctx r w ≡ (http_error "Unauthorized" 401 w, none)
  unfolding authenticate
  refused_lem a e w has refuses = rw (has, authenticate, refuses)

  -- Where the transport has an authenticator and it refuses the request, POST and GET answer 401:
  -- no session is made or touched, and the message handler is not called.
  pub unauthorized :
      (a : Authenticator) (e : String) (fresh : String) (conn : ℕ) (handler : MessageHandler)
      (st : State)
      → t.auth ≡ some a
      → (a env ctx r).1 ≡ some e
      → let refused : State = record st { writer = http_error "Unauthorized" 401 st.writer } in
        (handle_post t env ctx r fresh handler st ≡ refused)
        × (handle_get t env ctx r conn st ≡ refused)
  unfolding handle_post handle_get
  unauthorized a e fresh conn handler st has refuses =
      let no = refused_lem a e st.writer has refuses in
      (
        ap (after_auth st (post_on t env ctx r fresh handler st)) no,
        ap (after_auth st (get_on t env ctx r conn st)) no,
      )

  delete_found :
      (p : ℕ) (st : State)
      → header "Mcp-Session-Id" r ≢ ""
      → get_session (header "Mcp-Session-Id" r) st.manager ≡ some p
      → handle_delete t env ctx r st ≡ record st {
        manager = delete_session (header "Mcp-Session-Id" r) st.manager;
        writer = write_header 204 st.writer;
      }
  unfolding handle_delete
  delete_found p st given found = rw (eq_of_ne _ _ given, found, handle_delete)

  -- DELETE never asks the authenticator: whatever it is, a request that names a session in its
  -- header deletes that session and is answered 204.
  pub delete_any :
      (p : ℕ) (fresh : String) (conn : ℕ) (handler : MessageHandler) (st : State)
      → r.method ≡ "DELETE"
      → header "Mcp-Session-Id" r ≢ ""
      → get_session (header "Mcp-Session-Id" r) st.manager ≡ some p
      → serve t env ctx r fresh conn handler st ≡ record st {
        manager = delete_session (header "Mcp-Session-Id" r) st.manager;
        writer = write_header 204 st.writer;
      }
  unfolding serve
  delete_any p fresh conn handler st method given found =
      rw (not_post, not_get, is_delete, serve) (delete_found p st given found)
    where
      not_post : (r.method == "POST") ≡ false
      not_post = rw method

      not_get : (r.method == "GET") ≡ false
      not_get = rw method

      is_delete : (r.method == "DELETE") ≡ true
      is_delete = rw method

  known_session :
      (fresh : String) (p now : ℕ) (m : Manager)
      → header "Mcp-Session-Id" r ≢ ""
      → get_session (header "Mcp-Session-Id" r) m ≡ some p
      → post_session fresh (header "Mcp-Session-Id" r) now m ≡ (p, m)
  unfolding post_session
  known_session fresh p now m given found = rw (eq_of_ne _ _ given, found, post_session)

  pub no_auth : (w : Writer) → t.auth ≡ none → authenticate t env ctx r w ≡ (w, some ctx)
  unfolding authenticate
  no_auth w open_ = rw (open_, authenticate)

  known_id :
      (p : ℕ) (m : Manager)
      → IsFiled m
      → get_session (header "Mcp-Session-Id" r) m ≡ some p
      → session_id p m ≡ header "Mcp-Session-Id" r
  known_id p m filed found =
      let (s, at, same) = get_session-id m (header "Mcp-Session-Id" r) p filed found in
      rw (at, session_id) same

  -- On a transport without an authenticator, a POST with a body that can be read and the id of a
  -- session of the table, whose response was not begun: the message handler is called once, with the
  -- body, and no session is changed. What the handler returns is sent with status 200 and the header
  -- Mcp-Session-Id with that same id, or with status 202 and that header where it returns nothing;
  -- where it panics, nothing is sent.
  pub post_known :
      (raw : Raw) (fresh : String) (p : ℕ) (handler : MessageHandler) (st : State)
      → IsFiled st.manager
      → st.writer.status ≡ none
      → t.auth ≡ none
      → r.body ≡ some raw
      → header "Mcp-Session-Id" r ≢ ""
      → get_session (header "Mcp-Session-Id" r) st.manager ≡ some p
      → Replies
          (header "Mcp-Session-Id" r)
          st
          (handler ctx raw st.world)
          st.manager
          (handle_post t env ctx r fresh handler st)
  unfolding handle_post
  post_known raw fresh p handler st filed unsent open_ body given found =
      subst (Replies (header "Mcp-Session-Id" r) st (handler ctx raw st.world) st.manager)
        (sym (ap (after_auth st (post_on t env ctx r fresh handler st)) (no_auth st.writer open_)))
        (subst
          (λ b.
            Replies (header "Mcp-Session-Id" r) st (handler ctx raw st.world) st.manager
              (post_body fresh (header "Mcp-Session-Id" r) handler ctx b st))
          (sym body)
          (subst
            (λ q.
              Replies (header "Mcp-Session-Id" r) st (handler ctx raw st.world) st.manager
                (post_in handler ctx raw st q))
            (sym (known_session fresh p (now st.world) st.manager given found))
            (
              refl,
              refl,
              ap (λ i. write_reply i (handler ctx raw st.world).1 st.writer)
                    (known_id p st.manager filed found)
                  ∙ write_reply_lem (header "Mcp-Session-Id" r) (handler ctx raw st.world).1
                      st.writer unsent,
            )))

  -- Where no authenticator is set, a POST with a readable body runs the handler once.
  pub served_post :
      (raw : Raw) (fresh : String) (conn : ℕ) (handler : MessageHandler) (st : State)
      → t.auth ≡ none
      → r.method ≡ "POST"
      → r.body ≡ some raw
      → serve t env ctx r fresh conn handler st
        ≡ post_in handler ctx raw st
            (post_session fresh (header "Mcp-Session-Id" r) (now st.world) st.manager)
  unfolding serve handle_post
  served_post raw fresh conn handler st open_ method body =
      rw (posts, serve)
        (ap (after_auth st (post_on t env ctx r fresh handler st)) (no_auth st.writer open_)
          ∙ ap (λ b. post_body fresh (header "Mcp-Session-Id" r) handler ctx b st) body)
    where
      posts : (r.method == "POST") ≡ true
      posts = rw method

-- The table has the session of a POST, under the id that is sent back.
abbrev pub Filed : ℕ × Manager → Type 0
Filed (p, m) = get_session (session_id p m) m ≡ some p

create-Filed : (fresh : String) (time : ℕ) (m : Manager) → Filed (create fresh time m)
unfolding create get_session
create-Filed fresh time m =
    let p = (create fresh time m).0 in
    let n = (create fresh time m).1 in
    let own : session_id p n ≡ fresh = rw (load-create m fresh time, session_id) in
    ap (λ i. get_session i n) own ∙ get-put fresh fresh (length m.heap) m.sessions ∙ rw eq_refl

pub post_session-Filed :
    (fresh header_id : String) (time : ℕ) (m : Manager)
    → IsFiled m
    → Filed (post_session fresh header_id time m)
unfolding post_session
post_session-Filed fresh header_id time m filed = elim (Bool-cases (header_id == "")) [
  | inl none_ ↦ rw none_ (create-Filed fresh time m)
  | inr given ↦ elim (Option-cases (get_session header_id m)) [
    | inl missed ↦ rw (given, missed, post_session) (create-Filed fresh time m)
    | inr (p, found) ↦
        rw (given, found, post_session)
          (let (s, at, same) = get_session-id m header_id p filed found in
            ap (λ i. get_session i m) (rw (at, session_id) same) ∙ found)
  ]
]
