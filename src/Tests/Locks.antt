-- ===== src/Tests/Locks.antt =====
-- Sessions at the grain of their locks, at concrete inputs.
use custom_mcps.Prelude.{true, List, [], ◌∷◌, ◌≡◌, refl, some, map, if◌then◌else◌}
use custom_mcps.Json.{null, text, encoded}
use custom_mcps.Transport.Session.{Session, Manager, broadcast, load}
use custom_mcps.Transport.Session.Laws.{IsFiled}
use custom_mcps.Transport.Session.Delivery.{live, push}
use custom_mcps.Transport.Session.Everyone.{broadcast-live, is_target}
use custom_mcps.Transport.Session.Locks.{
  Region, creates, unlinks, shuts, attaches, detaches, drops, sends, interleave, open_, over, watch,
  see,
}
use custom_mcps.Transport.Session.Locks.Contents.{Sees, interleave-attaches}

abbrev the_session : Session
the_session = record { id = "s"; writers = []; created = 5 }

abbrev one_session : Manager
one_session = record { sessions = ("s", 0) ∷ []; heap = the_session ∷ [] }

-- Two messages arrive, with another stream attached between them, and a third after the first half
-- of a deletion.
abbrev busy : List Region
busy =
    sends 0 (encoded null)
    ∷ attaches 0 8
    ∷ creates "t" 6
    ∷ sends 0 (encoded (text "a"))
    ∷ unlinks "s"
    ∷ sends 0 (encoded (text "b"))
    ∷ []

all_received :
    watch 0 7 busy (open_ true [])
    ≡ open_ true (encoded null ∷ encoded (text "a") ∷ encoded (text "b") ∷ [])
unfolding watch see
all_received = refl

shut_stream :
    watch 0 7 (sends 0 (encoded null) ∷ shuts 0 ∷ sends 0 (encoded (text "b")) ∷ []) (open_ true [])
    ≡ over (encoded null ∷ [])
unfolding watch see
shut_stream = refl

gone_client :
    watch 0 7 (drops 0 7 ∷ sends 0 (encoded null) ∷ detaches 0 7 ∷ []) (open_ true []) ≡ over []
unfolding watch see
gone_client = refl

-- The same, where the stream ends and a later message is not sent to it.
abbrev ended : List Region
ended =
    sends 0 (encoded null)
    ∷ drops 0 8
    ∷ detaches 0 7
    ∷ attaches 0 9
    ∷ sends 0 (encoded (text "b"))
    ∷ []

interleave-attaches_example :
    Sees 0 7 (over (encoded null ∷ [])) (interleave (attaches 0 7 ∷ ended) one_session)
unfolding load watch see
interleave-attaches_example = interleave-attaches 0 7 ended one_session the_session refl refl refl

one_session-IsFiled : IsFiled one_session
unfolding load
one_session-IsFiled = record { once = (tt, tt); held = ((the_session, refl, refl), tt) }

broadcast-live_example :
    (load 0 (broadcast (encoded null) one_session).heap
      ≡ some (record the_session {
        writers =
            if is_target 0 one_session.sessions
            then map (push (encoded null)) (live the_session.writers)
            else the_session.writers;
      }))
    × ((broadcast (encoded null) one_session).sessions ≡ one_session.sessions)
unfolding load
broadcast-live_example =
    broadcast-live (encoded null) one_session 0 the_session one_session-IsFiled refl
