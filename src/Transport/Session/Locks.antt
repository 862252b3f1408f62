-- ===== src/Transport/Session/Locks.antt =====
-- framework/transport/session.go at the grain of its locks: what happens between two lock regions of
-- one operation, and what a stream has sent after any interleaving.
pub mod Contents
pub mod Views
use custom_mcps.Prelude.{
  ℕ, String, Bool, true, false, not, ◌&&◌, List, [], ◌∷◌, ◌++◌, nat_eq, if◌then◌else◌,
}
use custom_mcps.Prelude.Maps.{delete}
use custom_mcps.Json.{Raw}
use custom_mcps.Transport.Session.{
  SseWriter, Session, Manager, write_sse, add_writer, close_writers, update, create, cleanup,
}

-- One critical section: of the manager for `creates` (`Create`) and `unlinks` (the first of
-- `Delete`), and of the session behind a pointer for the others: `shuts` (the second of `Delete`),
-- `attaches` (`addWriter`), `detaches` (its cleanup) and `sends` (`writeSSE`; `Broadcast` is one for
-- each session). `drops` is the client that goes away: writes to the connection fail from there on.
pub data Region : Type 0 where
  creates : (id : String) (now : ℕ) → Region
  unlinks : (id : String) → Region
  shuts : (p : ℕ) → Region
  attaches : (p conn : ℕ) → Region
  detaches : (p conn : ℕ) → Region
  drops : (p conn : ℕ) → Region
  sends : (p : ℕ) → Raw → Region

abbrev pub drop_conn : ℕ → SseWriter → SseWriter
drop_conn conn sw = if nat_eq sw.conn conn then record sw { connected = false } else sw

abbrev pub drop_writers : ℕ → List SseWriter → List SseWriter
drop_writers conn [] = []
drop_writers conn (sw ∷ sws) = drop_conn conn sw ∷ drop_writers conn sws

abbrev pub drop : ℕ → Session → Session
drop conn s = record s { writers = drop_writers conn s.writers }

abbrev pub at : ℕ → (Session → Session) → Manager → Manager
at p f m = record m { heap = update p f m.heap }

unfoldable pub enter : Region → Manager → Manager
enter (creates id now) m = (create id now m).1
enter (unlinks id) m = record m { sessions = delete id m.sessions }
enter (shuts p) m = at p close_writers m
enter (attaches p conn) m = at p (add_writer conn) m
enter (detaches p conn) m = at p (cleanup conn) m
enter (drops p conn) m = at p (drop conn) m
enter (sends p d) m = at p (write_sse d) m

-- The regions of all requests, in the order in which the locks are taken.
unfoldable pub interleave : List Region → Manager → Manager
interleave [] m = m
interleave (r ∷ rs) m = interleave rs (enter r m)

-- A stream as its client sees it: open, or over, with what was sent to it. `connected` is whether
-- the client is still there.
pub data Stream : Type 0 where
  open_ : (connected : Bool) → (sent : List Raw) → Stream
  over : (sent : List Raw) → Stream

abbrev pub receive : Raw → Stream → Stream
receive d (open_ true sent) = open_ true (sent ++ (d ∷ []))
receive d (open_ false sent) = over sent
receive d (over sent) = over sent

abbrev pub hang_up : Stream → Stream
hang_up (open_ connected sent) = open_ false sent
hang_up (over sent) = over sent

abbrev pub finish : Stream → Stream
finish (open_ connected sent) = over sent
finish (over sent) = over sent

-- What a region does to the stream of connection `c` on the session behind `p`.
unfoldable pub see : (p c : ℕ) → Region → Stream → Stream
see p c (creates id now) x = x
see p c (unlinks id) x = x
see p c (shuts q) x = if nat_eq q p then finish x else x
see p c (attaches q conn) x = x
see p c (detaches q conn) x = if nat_eq q p && nat_eq conn c then finish x else x
see p c (drops q conn) x = if nat_eq q p && nat_eq conn c then hang_up x else x
see p c (sends q d) x = if nat_eq q p then receive d x else x

unfoldable pub watch : (p c : ℕ) → List Region → Stream → Stream
watch p c [] x = x
watch p c (r ∷ rs) x = watch p c rs (see p c r x)

-- A connection number stands for one request, which is attached once.
abbrev pub attached_to : ℕ → Region → Bool
attached_to c (attaches q conn) = nat_eq conn c
attached_to c _ = false

abbrev pub never_attached : ℕ → List Region → Bool
never_attached c [] = true
never_attached c (r ∷ rs) = not (attached_to c r) && never_attached c rs
