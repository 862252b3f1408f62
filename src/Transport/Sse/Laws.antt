-- ===== src/Transport/Sse/Laws.antt =====
-- What is posted to a session comes out of its stream, unless it is posted before that is attached.
use custom_mcps.Prelude.{
  ℕ, String, true, false, none, some, [], ◌∷◌, returns, ◌≡◌, ◌≢◌, refl, ap, ◌∙◌, length, eq_of_ne,
  eq_refl, ◌==◌, if◌then◌else◌, subst, sym,
}
use custom_mcps.Prelude.Maps.{get-put}
use custom_mcps.Json.{Json, Raw, encoded}
use custom_mcps.Context.{Context}
use custom_mcps.Http.{HttpRequest, Writer, query_value, write_header}
use custom_mcps.Auth.{Env}
use custom_mcps.World.{MessageHandler, now, after_reading}
use custom_mcps.Transport.Session.{
  Manager, Session, create, get_session, load, add_writer, write_sse, write_each, update,
}
use custom_mcps.Transport.Session.Laws.{load-create, load-update_self}
use custom_mcps.Transport.Streamable.{State, after_auth}
use custom_mcps.Transport.Sse.{
  SseTransport, open_if, authenticate, sse_on, handle_sse, stream_to, endpoint_data, messages_on,
  handle_messages, deliver, message_for, announce, attach_stream,
}

pub get_session-create :
    (id other : String) (now : ℕ) (m : Manager)
    → get_session other (create id now m).1
      ≡ (if id == other then some (create id now m).0 else get_session other m)
unfolding get_session create
get_session-create id other now m = get-put id other (length m.heap) m.sessions

module _ {H : Type 0} (t : SseTransport H) (env : Env) (ctx : Context) (r : HttpRequest)
    (open_ : t.auth ≡ none) where
  no_auth : (w : Writer) → authenticate t env ctx r w ≡ (w, some ctx)
  unfolding authenticate
  no_auth w = rw (open_, authenticate)

  opened :
      (fresh : String) (conn : ℕ) (st : State)
      → st.writer.can_flush ≡ true
      → handle_sse t env ctx r fresh conn st
        ≡ stream_to conn
            (endpoint_data t env ctx r fresh)
            st
            (create fresh (now st.world) st.manager)
  unfolding handle_sse
  opened fresh conn st flushes =
      ap (after_auth st (sse_on t env ctx r fresh conn st)) (no_auth st.writer)
      ∙ ap (λ b. open_if b fresh conn (endpoint_data t env ctx r fresh) st) flushes

  posted :
      (handler : MessageHandler) (st : State) (p : ℕ) (raw : Raw)
      → query_value "sessionId" r ≢ ""
      → get_session (query_value "sessionId" r) st.manager ≡ some p
      → r.body ≡ some raw
      → handle_messages t env ctx r handler st ≡ deliver p st (handler ctx raw st.world)
  unfolding handle_messages
  posted handler st p raw given found body =
      ap (after_auth st (messages_on t env ctx r handler st)) (no_auth st.writer)
      ∙ rw (eq_of_ne _ _ given, found, body, message_for)

-- The session on the heap behind the writing of `d` to a new stream.
streamed :
    (id : String) (conn now : ℕ) (d : Raw) (m : Manager)
    → load (create id now m).0 (
        update
          (create id now m).0
          (write_sse d)
          (update (create id now m).0 (add_writer conn) (create id now m).1.heap))
      ≡ some (record {
        id = id;
        writers =
            record { conn = conn; connected = true; sent = d ∷ []; done = false; closed = false }
            ∷ [];
        created = now;
      })
unfolding write_sse write_each add_writer
streamed id conn now d m =
    let p = (create id now m).0 in
    let new_ : Session = record { id = id; writers = []; created = now } in
    load-update_self p (write_sse d) (update p (add_writer conn) (create id now m).1.heap)
      (add_writer conn new_)
      (load-update_self p (add_writer conn) (create id now m).1.heap new_ (load-create m id now))

-- The table holds the session of this id, whose one stream has sent `v` and nothing else, and the
-- POST is accepted.
abbrev pub Delivered : String → (conn created : ℕ) → Json → Writer → State → Type 0
Delivered id conn created v w st =
    (p : ℕ) × (get_session id st.manager ≡ some p)
    × (load p st.manager.heap
        ≡ some (record {
          id = id;
          writers =
              record {
                conn = conn;
                connected = true;
                sent = encoded v ∷ [];
                done = false;
                closed = false;
              }
              ∷ [];
          created = created;
        }))
    × (st.writer ≡ write_header 202 w)

module _ {H : Type 0} (t : SseTransport H) (env : Env) (ctx : Context) where
  -- On a transport without an authenticator, a GET opens a session under a fresh id; a message that
  -- is then posted with that id reaches the handler, its response is the one event that the stream
  -- has sent, and the POST is answered 202.
  pub sse_round_trip :
      (get_ post : HttpRequest) (fresh : String) (conn : ℕ) (handler : MessageHandler) (st : State)
      (w : Writer) (raw : Raw) (v : Json)
      → t.auth ≡ none
      → st.writer.can_flush ≡ true
      → query_value "sessionId" post ≢ ""
      → query_value "sessionId" post ≡ fresh
      → post.body ≡ some raw
      → (handler ctx raw (handle_sse t env ctx get_ fresh conn st).world).1 ≡ returns (encoded v)
      → Delivered fresh conn (now st.world) v w (
          handle_messages t env ctx post handler
            (record (handle_sse t env ctx get_ fresh conn st) { writer = w }))
  unfolding get_session
  sse_round_trip get_ post fresh conn handler st w raw v open_ flushes given named body replies =
      let at = create fresh (now st.world) st.manager in
      let mid : State = stream_to conn (endpoint_data t env ctx get_ fresh) st at in
      let posting : State = record mid { writer = w } in
      let went = opened t env ctx get_ open_ fresh conn st flushes in
      let found =
        get_session-create fresh fresh (now st.world) st.manager
        ∙ ap (λ b. if b then some at.0 else get_session fresh st.manager) (eq_refl fresh) in
      let reply = ap (λ (s : State). (handler ctx raw s.world).1) (sym went) ∙ replies in
      let P = Delivered fresh conn (now st.world) v w in
      subst (λ (s : State). P (handle_messages t env ctx post handler (record s { writer = w })))
        (sym went)
        (subst P
          (sym (
            posted t env ctx post open_ handler posting at.0 raw given
              (ap (λ q. get_session q posting.manager) named ∙ found) body
            ∙ ap (λ o. deliver at.0 posting ((handler ctx raw mid.world).0, o)) reply))
          (at.0, found, streamed fresh conn (now st.world) (encoded v) st.manager, refl))

-- The session behind a message that is written before the stream is attached.
unstreamed :
    (id : String) (conn now : ℕ) (d : Raw) (m : Manager)
    → load (create id now m).0 (
        update
          (create id now m).0
          (add_writer conn)
          (update (create id now m).0 (write_sse d) (create id now m).1.heap))
      ≡ some (record {
        id = id;
        writers =
            record { conn = conn; connected = true; sent = []; done = false; closed = false } ∷ [];
        created = now;
      })
unfolding write_sse write_each add_writer
unstreamed id conn now d m =
    let p = (create id now m).0 in
    let new_ : Session = record { id = id; writers = []; created = now } in
    load-update_self p (add_writer conn) (update p (write_sse d) (create id now m).1.heap)
      (write_sse d new_)
      (load-update_self p (write_sse d) (create id now m).1.heap new_ (load-create m id now))

-- The POST was accepted, and the session's one stream, which is open, has sent nothing.
abbrev pub Lost : String → (p conn created : ℕ) → Writer → State → Type 0
Lost id p conn created w st =
    (get_session id st.manager ≡ some p)
    × (load p (attach_stream p conn st).manager.heap
        ≡ some (record {
          id = id;
          writers =
              record { conn = conn; connected = true; sent = []; done = false; closed = false }
              ∷ [];
          created = created;
        }))
    × (st.writer ≡ write_header 202 w)

module _ {H : Type 0} (t : SseTransport H) (env : Env) (ctx : Context) where
  -- On a transport without an authenticator, the answer to a GET is two halves: the client is told
  -- the URL to post to, and then its connection is attached to the session. A message that is posted
  -- in between reaches the handler and is answered 202, and its response is lost: the stream is
  -- attached with nothing sent.
  pub early_post-Lost :
      (get_ post : HttpRequest) (fresh : String) (conn : ℕ) (handler : MessageHandler) (st : State)
      (w : Writer) (raw : Raw) (v : Json)
      → t.auth ≡ none
      → st.writer.can_flush ≡ true
      → query_value "sessionId" post ≢ ""
      → query_value "sessionId" post ≡ fresh
      → post.body ≡ some raw
      → (handler ctx raw (after_reading st.world)).1 ≡ returns (encoded v)
      → let at = create fresh (now st.world) st.manager in
        let told = announce (endpoint_data t env ctx get_ fresh) st at in
        (handle_sse t env ctx get_ fresh conn st ≡ attach_stream at.0 conn told)
        × Lost fresh at.0 conn
            (now st.world)
            w
            (handle_messages t env ctx post handler (record told { writer = w }))
  unfolding get_session
  early_post-Lost get_ post fresh conn handler st w raw v open_ flushes given named body replies =
      let at = create fresh (now st.world) st.manager in
      let told : State = announce (endpoint_data t env ctx get_ fresh) st at in
      let posting : State = record told { writer = w } in
      let found =
        get_session-create fresh fresh (now st.world) st.manager
        ∙ ap (λ b. if b then some at.0 else get_session fresh st.manager) (eq_refl fresh) in
      (
        opened t env ctx get_ open_ fresh conn st flushes,
        subst (Lost fresh at.0 conn (now st.world) w)
            (sym (
              posted t env ctx post open_ handler posting at.0 raw given
                (ap (λ q. get_session q posting.manager) named ∙ found) body
              ∙ ap (λ o. deliver at.0 posting ((handler ctx raw told.world).0, o)) replies))
            (found, unstreamed fresh conn (now st.world) (encoded v) st.manager, refl),
      )
