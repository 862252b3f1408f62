-- ===== src/Transport/Session/Delivery.antt =====
-- Deletion and delivery: who gets what a session writes.
use custom_mcps.Prelude.{
  ℕ, String, true, false, not, ◌&&◌, Option, none, some, List, [], ◌∷◌, ◌++◌, map, ◌≡◌, ◌≢◌, refl,
  sym, ap, ◌∙◌, arith, All, ◌==◌, if◌then◌else◌, nat_eq,
}
use custom_mcps.Prelude.Maps.{delete, get-delete, delete-Lacks, Lacks}
use custom_mcps.Json.{Raw}
use custom_mcps.Transport.Session.{
  SseWriter, Session, Manager, write_each, write_sse, add_writer, close, close_writers, load,
  update, get_session, delete_session,
}
use custom_mcps.Transport.Session.Laws.{IsFiled, Holds, All-delete, load-update, load-update_self}

-- The writers that a session writes to: open, and still connected.
abbrev pub live : List SseWriter → List SseWriter
live [] = []
live (sw ∷ sws) = if not sw.closed && sw.connected then sw ∷ live sws else live sws

abbrev pub push : Raw → SseWriter → SseWriter
push d sw = record sw { sent = sw.sent ++ (d ∷ []) }

pub write_each-live : (d : Raw) (ws : List SseWriter) → write_each d ws ≡ map (push d) (live ws)
unfolding write_each
write_each-live d [] = refl
write_each-live d (sw ∷ sws) = ground (arith, write_each-live d sws)

-- A session writes an event once to each of its open and connected writers, in order, and forgets
-- the others.
pub write_sse-live :
    (d : Raw) (s : Session)
    → ((write_sse d s).writers ≡ map (push d) (live s.writers)) × ((write_sse d s).id ≡ s.id)
unfolding write_sse
write_sse-live d s = (write_each-live d s.writers, refl)

-- Deleting a session takes its id, and no other, out of the table. The session keeps its writers,
-- each closed, with its channel, and as it was otherwise; every other session is as it was.
pub delete_session_lem :
    (m : Manager) (id other : String) (p : ℕ) (s : Session)
    → IsFiled m
    → get_session id m ≡ some p
    → load p m.heap ≡ some s
    → (get_session other (delete_session id m)
        ≡ (if id == other then none else get_session other m))
      × (load p (delete_session id m).heap
          ≡ some (record s {
            writers = map (λ (sw : SseWriter). record sw { closed = true; done = true }) s.writers;
          }))
      × ((q : ℕ) (u : Session)
          → load q m.heap ≡ some u
          → nat_eq p q ≡ false
          → load q (delete_session id m).heap ≡ some u)
unfolding delete_session get_session close_writers
delete_session_lem m id other p s f found at =
    rw (found, delete_session)
      (
        get-delete id other m.sessions f.once,
        load-update_self p close_writers m.heap s at,
        λ q u there apart.
            load-update p q close_writers m.heap u there
            ∙ ap (λ b. some (if b then close_writers u else u)) apart,
      )

same_session : {s t : Session} → ◌≡◌ {A = Option Session} (some s) (some t) → s ≡ t
same_session h = cc

-- A stream that is opened through a pointer whose session has been deleted in the meantime is open,
-- and no entry of the table points to it: neither a deletion nor a broadcast reaches it.
pub delete_session-add_writer :
    (m : Manager) (id : String) (p conn : ℕ) (s : Session)
    → IsFiled m
    → get_session id m ≡ some p
    → load p m.heap ≡ some s
    → s.id ≡ id
    → let n = delete_session id m in
      let opened = update p (add_writer conn) n.heap in
      All (λ e. e.1 ≢ p) n.sessions
      × (load p opened
          ≡ some (record s {
            writers =
                map close s.writers
                ++ (record {
                  conn = conn;
                  connected = true;
                  sent = [];
                  done = false;
                  closed = false;
                }
                    ∷ []);
          }))
unfolding delete_session get_session close_writers add_writer
delete_session-add_writer m id p conn s f found at same =
    rw (found, delete_session)
      (
        unreached (delete id m.sessions) (delete-Lacks id m.sessions f.once)
            (All-delete (Holds m.heap) id m.sessions f.held),
        load-update_self p (add_writer conn) (update p close_writers m.heap) (close_writers s)
            (load-update_self p close_writers m.heap s at),
      )
  where
    not_here : (e : String × ℕ) → e.0 ≢ id → Holds m.heap e → e.1 ≢ p
    not_here e n (t, there, filed) hit = n (
        sym filed
        ∙ ap (λ (x : Session). x.id) (same_session (sym there ∙ ap (λ q. load q m.heap) hit ∙ at))
        ∙ same)

    unreached : (t : List (String × ℕ)) → Lacks id t → All (Holds m.heap) t → All (λ e. e.1 ≢ p) t
    unreached [] l h = tt
    unreached (e ∷ t) l h = (not_here e l.0 h.0, unreached t l.1 h.1)
