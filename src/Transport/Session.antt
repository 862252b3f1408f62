-- ===== src/Transport/Session.antt =====
-- framework/transport/session.go: sessions, their SSE writers, and the session manager. Sessions
-- live on a heap, and the table of the manager holds pointers to them: a handler may keep a pointer
-- to a session that another request deletes. An operation is one step here; `Delete` and `Broadcast`
-- take several locks in turn, and Session/Locks.antt has their parts.
pub mod Laws
pub mod Delivery
pub mod Everyone
pub mod Locks
use custom_mcps.Prelude.{
  ℕ, zero, suc, String, Bool, true, false, Option, none, some, List, [], ◌∷◌, ◌++◌, map, length,
  nat_eq, if◌then◌else◌,
}
use custom_mcps.Prelude.Maps.{get, put, delete}
use custom_mcps.Json.{Raw}

-- `connected` says whether a write to the client still succeeds; `sent` is what has been written.
-- `done` says whether the channel is closed.
pub record SseWriter : Type 0 where
  pub conn : ℕ
  pub connected : Bool
  pub sent : List Raw
  pub done : Bool
  pub closed : Bool

pub record Session : Type 0 where
  pub id : String
  pub writers : List SseWriter
  pub created : ℕ

-- The loop of `writeSSE` over the writers: closed and failing ones are dropped, and the others get
-- the data.
unfoldable pub write_each : Raw → List SseWriter → List SseWriter
write_each data_ [] = []
write_each data_ (sw ∷ sws) = elim sw.closed [
  | true ↦ write_each data_ sws
  | false ↦ elim sw.connected [
    | true ↦ record sw { sent = sw.sent ++ (data_ ∷ []) } ∷ write_each data_ sws
    | false ↦ write_each data_ sws
  ]
]

unfoldable pub write_sse : Raw → Session → Session
write_sse data_ s = record s { writers = write_each data_ s.writers }

unfoldable pub add_writer : ℕ → Session → Session
add_writer conn s = record s {
  writers =
      s.writers
      ++ (record { conn = conn; connected = true; sent = []; done = false; closed = false } ∷ []);
}

abbrev pub close : SseWriter → SseWriter
close sw = record sw { closed = true; done = true }

unfoldable pub close_writers : Session → Session
close_writers s = record s { writers = map close s.writers }

pub record Manager : Type 0 where
  pub sessions : List (String × ℕ)
  pub heap : List Session

-- `newSessionManager`
abbrev pub empty_manager : Manager
empty_manager = record { sessions = []; heap = [] }

-- What a pointer points to.
unfoldable pub load : ℕ → List Session → Option Session
load p [] = none
load zero (s ∷ h) = some s
load (suc p) (s ∷ h) = load p h

-- An update through a pointer.
unfoldable pub update : ℕ → (Session → Session) → List Session → List Session
update p f [] = []
update zero f (s ∷ h) = f s ∷ h
update (suc p) f (s ∷ h) = s ∷ update p f h

-- `Create`, with the random id that it draws: the pointer to the new session.
unfoldable pub create : String → ℕ → Manager → ℕ × Manager
create id now m = (
  length m.heap,
  record {
    sessions = put id (length m.heap) m.sessions;
    heap = m.heap ++ (record { id = id; writers = []; created = now } ∷ []);
  },
)

-- `Get`
unfoldable pub get_session : String → Manager → Option ℕ
get_session id m = get id m.sessions

unfoldable pub delete_session : String → Manager → Manager
delete_session id m = elim (get id m.sessions) [
  | none ↦ m
  | some p ↦ record { sessions = delete id m.sessions; heap = update p close_writers m.heap }
]

-- The cleanup of `addWriter`: the writer of this connection is closed, if the session still has it.
abbrev pub close_conn : ℕ → SseWriter → SseWriter
close_conn conn sw = if nat_eq sw.conn conn then record sw { closed = true } else sw

unfoldable pub cleanup : ℕ → Session → Session
cleanup conn s = record s { writers = map (close_conn conn) s.writers }

-- `Broadcast`, over the table in some order.
unfoldable pub broadcast_to : Raw → List (String × ℕ) → List Session → List Session
broadcast_to data_ [] h = h
broadcast_to data_ ((id, p) ∷ rest) h = broadcast_to data_ rest (update p (write_sse data_) h)

unfoldable pub broadcast : Raw → Manager → Manager
broadcast data_ m = record m { heap = broadcast_to data_ m.sessions m.heap }
