-- ===== src/Transport/Session/Laws.antt =====
-- The session manager: what the table says of the heap, deletion, and delivery.
use custom_mcps.Prelude.{
  ℕ, zero, suc, String, Bool, true, false, some, List, [], ◌∷◌, ◌++◌, length, ◌≡◌, refl, sym, ap,
  ◌∙◌, inl, inr, arith, All, ◌==◌, if◌then◌else◌, nat_eq, Option-cases, Bool-cases, text_cases,
}
use custom_mcps.Prelude.Maps.{get, put, delete, IsMap, put-IsMap, delete-IsMap}
use custom_mcps.Json.{Raw}
use custom_mcps.Transport.Session.{
  Session, Manager, write_sse, add_writer, close_writers, load, update, create, get_session,
  delete_session, broadcast, broadcast_to, empty_manager, cleanup,
}

pub load-update :
    (p q : ℕ) (f : Session → Session) (h : List Session) (s : Session)
    → load q h ≡ some s
    → load q (update p f h) ≡ some (if nat_eq p q then f s else s)
unfolding load update
load-update p q f [] s e = cc
load-update zero zero f (x ∷ h) s e = ground arith
load-update zero (suc q) f (x ∷ h) s e = ground arith
load-update (suc p) zero f (x ∷ h) s e = ground arith
load-update (suc p) (suc q) f (x ∷ h) s e = ground (arith, load-update p q f h s e)

pub load-update_self :
    (p : ℕ) (f : Session → Session) (h : List Session) (s : Session)
    → load p h ≡ some s
    → load p (update p f h) ≡ some (f s)
load-update_self p f h s e = ground (arith, load-update p p f h s e)

pub load-append :
    (q : ℕ) (h : List Session) (x s : Session) → load q h ≡ some s → load q (h ++ (x ∷ [])) ≡ some s
unfolding load
load-append q [] x s e = cc
load-append zero (y ∷ h) x s e = e
load-append (suc q) (y ∷ h) x s e = load-append q h x s e

load-length : (h : List Session) (x : Session) → load (length h) (h ++ (x ∷ [])) ≡ some x
unfolding load
load-length [] x = refl
load-length (y ∷ h) x = load-length h x

-- A table entry points to a session of that id.
abbrev pub Holds : List Session → String × ℕ → Type 0
Holds h e = (s : Session) × (load e.1 h ≡ some s) × (s.id ≡ e.0)

pub record IsFiled (m : Manager) : Type 0 where
  pub once : IsMap m.sessions
  pub held : All (Holds m.heap) m.sessions

module _ (P Q : String × ℕ → Type 0) where
  All-map : (m : List (String × ℕ)) → ((e : String × ℕ) → P e → Q e) → All P m → All Q m
  All-map [] f h = tt
  All-map (e ∷ m) f h = (f e h.0, All-map m f h.1)

module _ (P : String × ℕ → Type 0) where
  All-put : (k : String) (p : ℕ) (m : List (String × ℕ)) → P (k, p) → All P m → All P (put k p m)
  unfolding put
  All-put k p [] e h = (e, tt)
  All-put k p ((j, q) ∷ m) e h = elim (Bool-cases (j == k)) [
    | inl y ↦ rw y (e, h.1)
    | inr n ↦ rw n (h.0, All-put k p m e h.1)
  ]

  pub All-delete : (k : String) (m : List (String × ℕ)) → All P m → All P (delete k m)
  unfolding delete
  All-delete k [] h = tt
  All-delete k ((j, q) ∷ m) h = elim (Bool-cases (j == k)) [
    | inl y ↦ rw y h.1
    | inr n ↦ rw n (h.0, All-delete k m h.1)
  ]

abbrev KeepsId : (Session → Session) → Type 0
KeepsId f = (s : Session) → (f s).id ≡ s.id

Holds-update :
    (p : ℕ) (f : Session → Session) (h : List Session)
    → KeepsId f
    → (e : String × ℕ) → Holds h e
    → Holds (update p f h) e
Holds-update p f h keep e (s, at, same) =
    (if nat_eq p e.1 then f s else s, load-update p e.1 f h s at, kept (nat_eq p e.1))
  where
    kept : (b : Bool) → (if b then f s else s).id ≡ e.0
    kept true = keep s ∙ same
    kept false = same

pub update-held :
    (p : ℕ) (f : Session → Session) (h : List Session) (t : List (String × ℕ))
    → KeepsId f
    → All (Holds h) t
    → All (Holds (update p f h)) t
update-held p f h t keep = All-map (Holds h) (Holds (update p f h)) t (Holds-update p f h keep)

broadcast_to-held :
    (d : Raw) (rest : List (String × ℕ)) (h : List Session) (t : List (String × ℕ))
    → All (Holds h) t
    → All (Holds (broadcast_to d rest h)) t
unfolding broadcast_to write_sse
broadcast_to-held d [] h t held = held
broadcast_to-held d ((id, p) ∷ rest) h t held =
    broadcast_to-held d rest (update p (write_sse d) h) t
      (update-held p (write_sse d) h t (λ s. refl) held)

-- What requests do to the manager. A handler may use a pointer that it got before, and `Delete` also
-- in its two parts, `unlinks` and `shuts`, with anything in between.
pub data Step (m : Manager) : Manager → Type 0 where
  creates : (id : String) (now : ℕ) → Step m (create id now m).1
  deletes : (id : String) → Step m (delete_session id m)
  opens : (p conn : ℕ) → Step m (record m { heap = update p (add_writer conn) m.heap })
  closes : (p conn : ℕ) → Step m (record m { heap = update p (cleanup conn) m.heap })
  writes : (p : ℕ) (d : Raw) → Step m (record m { heap = update p (write_sse d) m.heap })
  broadcasts : (d : Raw) → Step m (broadcast d m)
  unlinks : (id : String) → Step m (record m { sessions = delete id m.sessions })
  shuts : (p : ℕ) → Step m (record m { heap = update p close_writers m.heap })

pub data Reach : Manager → Type 0 where
  start : Reach empty_manager
  next : {m n : Manager} → Reach m → Step m n → Reach n

delete-IsFiled : (id : String) (m : Manager) → IsFiled m → IsFiled (delete_session id m)
unfolding delete_session close_writers
delete-IsFiled id m f = elim (Option-cases (get id m.sessions)) [
  | inl missed ↦ rw (missed, delete_session) f
  | inr (p, found) ↦
      rw (found, delete_session)
        (record {
          once = delete-IsMap id m.sessions f.once;
          held =
              update-held p close_writers m.heap (delete id m.sessions) (λ s. refl)
                (All-delete (Holds m.heap) id m.sessions f.held);
        })
]

Step-IsFiled : {m n : Manager} → Step m n → IsFiled m → IsFiled n
unfolding create add_writer write_sse cleanup broadcast close_writers
Step-IsFiled {m} (creates id now) f = record {
  once = put-IsMap id (length m.heap) m.sessions f.once;
  held =
      let x : Session = record { id = id; writers = []; created = now } in
      All-put (Holds (m.heap ++ (x ∷ []))) id (length m.heap) m.sessions
        (x, load-length m.heap x, refl)
        (All-map (Holds m.heap) (Holds (m.heap ++ (x ∷ []))) m.sessions
          (λ e h. (h.0, load-append e.1 m.heap x h.0 h.1, h.2)) f.held);
}
Step-IsFiled {m} (deletes id) f = delete-IsFiled id m f
Step-IsFiled {m} (opens p conn) f = record {
  once = f.once;
  held = update-held p (add_writer conn) m.heap m.sessions (λ s. refl) f.held;
}
Step-IsFiled {m} (closes p conn) f = record {
  once = f.once;
  held = update-held p (cleanup conn) m.heap m.sessions (λ s. refl) f.held;
}
Step-IsFiled {m} (writes p d) f = record {
  once = f.once;
  held = update-held p (write_sse d) m.heap m.sessions (λ s. refl) f.held;
}
Step-IsFiled {m} (broadcasts d) f = record {
  once = f.once;
  held = broadcast_to-held d m.sessions m.heap m.sessions f.held;
}
Step-IsFiled {m} (unlinks id) f = record {
  once = delete-IsMap id m.sessions f.once;
  held = All-delete (Holds m.heap) id m.sessions f.held;
}
Step-IsFiled {m} (shuts p) f = record {
  once = f.once;
  held = update-held p close_writers m.heap m.sessions (λ s. refl) f.held;
}

-- After any sequence of steps, also with pointers to deleted sessions, every id stands in the table
-- once and points to a session of that id.
pub Reach-IsFiled : {m : Manager} → Reach m → IsFiled m
Reach-IsFiled start = record { once = tt; held = tt }
Reach-IsFiled (next r s) = Step-IsFiled s (Reach-IsFiled r)

found_in :
    (h : List Session) (id : String) (p : ℕ) (t : List (String × ℕ))
    → All (Holds h) t
    → get id t ≡ some p
    → (s : Session) × (load p h ≡ some s) × (s.id ≡ id)
unfolding get
found_in h id p [] held e = cc
found_in h id p ((j, q) ∷ t) held e = elim (text_cases j id) [
  | inl (same, y) ↦ (held.0.0, ap (λ k. load k h) (sym (pointer y)) ∙ held.0.1, held.0.2 ∙ same)
  | inr (_, n) ↦ found_in h id p t held.1 (later n)
]
  where
    pointer : (j == id) ≡ true → q ≡ p
    pointer y = ground arith

    later : (j == id) ≡ false → get id t ≡ some p
    later n = ground arith

-- An id that is found points to a session of that id.
pub get_session-id :
    (m : Manager) (id : String) (p : ℕ)
    → IsFiled m
    → get_session id m ≡ some p
    → (s : Session) × (load p m.heap ≡ some s) × (s.id ≡ id)
unfolding get_session
get_session-id m id p f found = found_in m.heap id p m.sessions f.held found

pub load-create :
    (m : Manager) (id : String) (now : ℕ)
    → load (create id now m).0 (create id now m).1.heap
      ≡ some (record { id = id; writers = []; created = now })
unfolding create
load-create m id now = load-length m.heap _
