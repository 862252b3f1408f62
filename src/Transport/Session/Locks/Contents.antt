-- ===== src/Transport/Session/Locks/Contents.antt =====
-- What a stream has sent after any interleaving of lock regions.
use custom_mcps.Prelude.{
  ℕ, Bool, true, false, ◌&&◌, some, List, [], ◌∷◌, ◌≡◌, refl, sym, arith, if◌then◌else◌, nat_eq,
  subst,
}
use custom_mcps.Transport.Session.{
  Session, Manager, write_sse, add_writer, close_writers, load, create, cleanup,
}
use custom_mcps.Transport.Session.Laws.{load-update, load-update_self, load-append}
use custom_mcps.Transport.Session.Locks.{
  Region, creates, unlinks, shuts, attaches, detaches, drops, sends, drop, at, enter, interleave,
  Stream, open_, receive, hang_up, finish, see, watch, attached_to, never_attached,
}
use custom_mcps.Transport.Session.Locks.Views.{
  View, shown, Shows, hung_up, shut, shown-write_each, shown-close, shown-close_conn, shown-drop,
  shown-add, shown-attach, take_in-Shows, hung_up-Shows, shut-Shows,
}

-- The session behind `p` shows the stream `x` on the connection `c`.
abbrev pub Sees : (p c : ℕ) → Stream → Manager → Type 0
Sees p c x m = (s : Session) × (load p m.heap ≡ some s) × Shows x (shown c s.writers)

-- An update through `q` whose effect on what the session shows is `f`.
at-Sees :
    (p c q : ℕ) (g : Session → Session) (x y : Stream) (m : Manager)
    → ((s : Session) → Shows x (shown c s.writers) → Shows y (shown c (g s).writers))
    → Sees p c x m
    → Sees p c (if nat_eq q p then y else x) (at q g m)
at-Sees p c q g x y m shift (s, there, shows) =
    (if nat_eq q p then g s else s, load-update q p g m.heap s there, turned (nat_eq q p))
  where
    turned : (b : Bool) → Shows (if b then y else x) (shown c (if b then g s else s).writers)
    turned true = shift s shows
    turned false = shows

same_stream : (b : Bool) (x : Stream) → (if b then x else x) ≡ x
same_stream true x = refl
same_stream false x = refl

both :
    (a b : Bool) (x y : Stream) → (if a then if b then y else x else x) ≡ (if a && b then y else x)
both true b x y = refl
both false b x y = refl

branch :
    (b : Bool) (x y : Stream) (l k : List View)
    → Shows x l
    → Shows y k
    → Shows (if b then y else x) (if b then k else l)
branch true x y l k e f = f
branch false x y l k e f = e

-- Along an equation of what is shown.
along : (x : Stream) {l k : List View} → k ≡ l → Shows x l → Shows x k
along x e h = subst (Shows x) (sym e) h

enter-Sees :
    (p c : ℕ) (r : Region) (x : Stream) (m : Manager)
    → attached_to c r ≡ false
    → Sees p c x m
    → Sees p c (see p c r x) (enter r m)
unfolding enter see create close_writers add_writer cleanup write_sse
enter-Sees p c (creates id now) x m away (s, there, shows) =
    (s, load-append p m.heap (record { id = id; writers = []; created = now }) s there, shows)
enter-Sees p c (unlinks id) x m away h = h
enter-Sees p c (shuts q) x m away h =
    at-Sees p c q close_writers x (finish x) m
      (λ s e. along (finish x) (shown-close c s.writers) (shut-Shows x (shown c s.writers) e)) h
enter-Sees p c (attaches q conn) x m away h =
    subst (λ y. Sees p c y (at q (add_writer conn) m)) (same_stream (nat_eq q p) x)
      (at-Sees p c q (add_writer conn) x x m (λ s e. along x (shown-add c _ s.writers away) e) h)
enter-Sees p c (detaches q conn) x m away h =
    subst (λ y. Sees p c y (at q (cleanup conn) m)) (both (nat_eq q p) (nat_eq conn c) x (finish x))
      (at-Sees p c q (cleanup conn) x (if nat_eq conn c then finish x else x) m
        (λ s e. along (if nat_eq conn c then finish x else x) (shown-close_conn conn c s.writers) (
          branch (nat_eq conn c) x (finish x) (shown c s.writers) (shut (shown c s.writers)) e
            (shut-Shows x (shown c s.writers) e)))
        h)
enter-Sees p c (drops q conn) x m away h =
    subst (λ y. Sees p c y (at q (drop conn) m)) (both (nat_eq q p) (nat_eq conn c) x (hang_up x))
      (at-Sees p c q (drop conn) x (if nat_eq conn c then hang_up x else x) m
        (λ s e. along (if nat_eq conn c then hang_up x else x) (shown-drop conn c s.writers) (
          branch (nat_eq conn c) x (hang_up x) (shown c s.writers) (hung_up (shown c s.writers)) e
            (hung_up-Shows x (shown c s.writers) e)))
        h)
enter-Sees p c (sends q d) x m away h =
    at-Sees p c q (write_sse d) x (receive d x) m
      (λ s e.
        along (receive d x) (shown-write_each c d s.writers)
          (take_in-Shows d x (shown c s.writers) e))
      h

interleave-Sees :
    (p c : ℕ) (rs : List Region) (x : Stream) (m : Manager)
    → never_attached c rs ≡ true
    → Sees p c x m
    → Sees p c (watch p c rs x) (interleave rs m)
unfolding interleave watch
interleave-Sees p c [] x m away h = h
interleave-Sees p c (r ∷ rs) x m away h =
    interleave-Sees p c rs (see p c r x) (enter r m) (ground arith)
      (enter-Sees p c r x m (ground arith) h)

-- A stream that is attached to a session, by a connection that the session has no writer of and that
-- is not attached again, has at any later moment, whatever lock regions of other requests come in
-- between and in whatever order, sent exactly what its own history says: each message written to its
-- session since, once and in order, while the client is there. From the shutting of the session, its
-- own cleanup, or the first write after the client has gone on, the stream is over: it has no open
-- writer, and a writer that the session still has of it has sent what it had sent by then, whatever is
-- written to the session later.
pub interleave-attaches :
    (p c : ℕ) (rs : List Region) (m : Manager) (s : Session)
    → load p m.heap ≡ some s
    → shown c s.writers ≡ []
    → never_attached c rs ≡ true
    → Sees p c (watch p c rs (open_ true [])) (interleave (attaches p c ∷ rs) m)
unfolding interleave enter add_writer
interleave-attaches p c rs m s there fresh away =
    interleave-Sees p c rs (open_ true []) (enter (attaches p c) m) away (
      add_writer c s,
      load-update_self p (add_writer c) m.heap s there,
      shown-attach c s.writers fresh,
    )
