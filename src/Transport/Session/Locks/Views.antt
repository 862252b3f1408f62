-- ===== src/Transport/Session/Locks/Views.antt =====
-- framework/transport/session.go: the writers of one connection, and what each operation on a session
-- does to them.
use custom_mcps.Prelude.{
  ℕ, Bool, true, false, not, ◌&&◌, List, [], ◌∷◌, ◌++◌, map, ◌≡◌, refl, arith, All, if◌then◌else◌,
  nat_eq,
}
use custom_mcps.Json.{Raw}
use custom_mcps.Transport.Session.{SseWriter, write_each, close, close_conn}
use custom_mcps.Transport.Session.Locks.{
  drop_writers, Stream, open_, over, receive, hang_up, finish,
}

-- A writer: whether it is closed, whether the client is there, and what was sent.
abbrev pub View : Type 0
View = Bool × Bool × List Raw

-- The writers of a connection.
abbrev pub shown : ℕ → List SseWriter → List View
shown c [] = []
shown c (sw ∷ sws) =
    if nat_eq sw.conn c then (sw.closed, sw.connected, sw.sent) ∷ shown c sws else shown c sws

-- A writer that is closed, and that these events and no others were sent to.
abbrev pub IsSpent : List Raw → View → Type 0
IsSpent sent (closed, connected, events) = (closed ≡ true) × (events ≡ sent)

-- An open stream is one open writer. One that is over has no open writer, and those that the session
-- has kept of it have sent what the stream had sent when it ended, and nothing more.
abbrev pub Shows : Stream → List View → Type 0
Shows (open_ b sent) l = l ≡ (false, b, sent) ∷ []
Shows (over sent) l = All (IsSpent sent) l

pub take_in : Raw → List View → List View
take_in d [] = []
take_in d ((closed, connected, sent) ∷ rest) =
    if not closed && connected
    then (closed, connected, sent ++ (d ∷ [])) ∷ take_in d rest
    else take_in d rest

pub hung_up : List View → List View
hung_up [] = []
hung_up ((closed, connected, sent) ∷ rest) = (closed, false, sent) ∷ hung_up rest

pub shut : List View → List View
shut [] = []
shut ((closed, connected, sent) ∷ rest) = (true, connected, sent) ∷ shut rest

pub shown-write_each :
    (c : ℕ) (d : Raw) (ws : List SseWriter) → shown c (write_each d ws) ≡ take_in d (shown c ws)
unfolding write_each take_in
shown-write_each c d [] = refl
shown-write_each c d (sw ∷ sws) = ground (arith, shown-write_each c d sws)

pub shown-close : (c : ℕ) (ws : List SseWriter) → shown c (map close ws) ≡ shut (shown c ws)
unfolding shut
shown-close c [] = refl
shown-close c (sw ∷ sws) = ground (arith, shown-close c sws)

pub shown-close_conn :
    (k c : ℕ) (ws : List SseWriter)
    → shown c (map (close_conn k) ws) ≡ (if nat_eq k c then shut (shown c ws) else shown c ws)
unfolding shut
shown-close_conn k c [] = ground arith
shown-close_conn k c (sw ∷ sws) = ground (arith, shown-close_conn k c sws)

pub shown-drop :
    (k c : ℕ) (ws : List SseWriter)
    → shown c (drop_writers k ws) ≡ (if nat_eq k c then hung_up (shown c ws) else shown c ws)
unfolding hung_up
shown-drop k c [] = ground arith
shown-drop k c (sw ∷ sws) = ground (arith, shown-drop k c sws)

pub shown-add :
    (c : ℕ) (sw : SseWriter) (ws : List SseWriter)
    → nat_eq sw.conn c ≡ false
    → shown c (ws ++ (sw ∷ [])) ≡ shown c ws
shown-add c sw [] e = ground arith
shown-add c sw (w ∷ ws) e = ground (arith, shown-add c sw ws)

pub shown-attach :
    (c : ℕ) (ws : List SseWriter)
    → shown c ws ≡ []
    → shown c (
        ws ++ (record { conn = c; connected = true; sent = []; done = false; closed = false } ∷ []))
      ≡ (false, true, []) ∷ []
shown-attach c [] e = ground arith
shown-attach c (w ∷ ws) e = ground (arith, shown-attach c ws)

-- A closed writer is dropped and not written to.
take_in-IsSpent :
    (d : Raw) (sent : List Raw) (l : List View)
    → All (IsSpent sent) l
    → All (IsSpent sent) (take_in d l)
unfolding take_in
take_in-IsSpent d sent [] h = tt
take_in-IsSpent d sent ((closed, connected, events) ∷ l) (e, rest) =
    rw (e.0, take_in) (take_in-IsSpent d sent l rest)

pub take_in-Shows :
    (d : Raw) (x : Stream) (l : List View) → Shows x l → Shows (receive d x) (take_in d l)
unfolding take_in
take_in-Shows d (open_ true sent) l h = rw (h, take_in) refl
take_in-Shows d (open_ false sent) l h = rw (h, take_in) tt
take_in-Shows d (over sent) l h = take_in-IsSpent d sent l h

hung_up-IsSpent :
    (sent : List Raw) (l : List View) → All (IsSpent sent) l → All (IsSpent sent) (hung_up l)
unfolding hung_up
hung_up-IsSpent sent [] h = tt
hung_up-IsSpent sent (e ∷ l) (spent, rest) = (spent, hung_up-IsSpent sent l rest)

pub hung_up-Shows : (x : Stream) (l : List View) → Shows x l → Shows (hang_up x) (hung_up l)
unfolding hung_up
hung_up-Shows (open_ b sent) l h = rw (h, hung_up) refl
hung_up-Shows (over sent) l h = hung_up-IsSpent sent l h

shut-IsSpent :
    (sent : List Raw) (l : List View) → All (IsSpent sent) l → All (IsSpent sent) (shut l)
unfolding shut
shut-IsSpent sent [] h = tt
shut-IsSpent sent (e ∷ l) (spent, rest) = ((refl, spent.1), shut-IsSpent sent l rest)

pub shut-Shows : (x : Stream) (l : List View) → Shows x l → Shows (finish x) (shut l)
unfolding shut
shut-Shows (open_ b sent) l h = rw (h, shut) ((refl, refl), tt)
shut-Shows (over sent) l h = shut-IsSpent sent l h
