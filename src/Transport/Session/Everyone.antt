-- ===== src/Transport/Session/Everyone.antt =====
-- What `Broadcast` does to each session.
use custom_mcps.Prelude.{
  ℕ, String, Bool, true, false, ◌||◌, Option, some, List, [], ◌∷◌, map, ◌≡◌, refl, sym, ap, subst,
  ◌∙◌, arith, All, if◌then◌else◌, nat_eq, Bool-cases, inl, inr,
}
use custom_mcps.Prelude.Maps.{Lacks, IsMap}
use custom_mcps.Json.{Raw}
use custom_mcps.Transport.Session.{
  Session, Manager, write_sse, load, update, broadcast, broadcast_to,
}
use custom_mcps.Transport.Session.Laws.{Holds, IsFiled, load-update, update-held}
use custom_mcps.Transport.Session.Delivery.{live, push, write_each-live}

-- Whether an entry of the table points to `p`.
abbrev pub is_target : ℕ → List (String × ℕ) → Bool
is_target p [] = false
is_target p ((id, q) ∷ t) = nat_eq q p || is_target p t

same_pointer : (q p : ℕ) → nat_eq q p ≡ true → q ≡ p
same_pointer q p h = ground arith

same_session : {s t : Session} → ◌≡◌ {A = Option Session} (some s) (some t) → s ≡ t
same_session h = cc

-- A session is filed under one id: where an entry points to it, no entry of another id does.
not_target :
    (h : List Session) (p : ℕ) (s : Session) (t : List (String × ℕ))
    → load p h ≡ some s
    → Lacks s.id t
    → All (Holds h) t
    → is_target p t ≡ false
not_target h p s [] there l held = refl
not_target h p s ((id, q) ∷ t) there l held = elim (Bool-cases (nat_eq q p)) [
  | inr miss ↦ rw (miss, not_target h p s t there l.1 held.1) refl
  | inl hit ↦ absurd (
      l.0 (
        sym held.0.2
        ∙ ap (λ (x : Session). x.id)
            (same_session (sym held.0.1 ∙ ap (λ k. load k h) (same_pointer q p hit) ∙ there))))
]

untargeted :
    (d : Raw) (p : ℕ) (s : Session) (t : List (String × ℕ)) (h : List Session)
    → load p h ≡ some s
    → is_target p t ≡ false
    → load p (broadcast_to d t h) ≡ some s
unfolding broadcast_to
untargeted d p s [] h there miss = there
untargeted d p s ((id, q) ∷ t) h there miss =
    untargeted d p s t (update q (write_sse d) h)
      (load-update q p (write_sse d) h s there
        ∙ ap (λ b. some (if b then write_sse d s else s)) other)
      (ground arith)
  where
    other : nat_eq q p ≡ false
    other = ground arith

broadcast_to-load :
    (d : Raw) (p : ℕ) (s : Session) (t : List (String × ℕ)) (h : List Session)
    → load p h ≡ some s
    → IsMap t
    → All (Holds h) t
    → load p (broadcast_to d t h) ≡ some (if is_target p t then write_sse d s else s)
unfolding broadcast_to write_sse
broadcast_to-load d p s [] h there once held = there
broadcast_to-load d p s ((id, q) ∷ t) h there once held = elim (Bool-cases (nat_eq q p)) [
  | inr miss ↦ rw miss (
      broadcast_to-load d p s t (update q (write_sse d) h) (next miss) once.1
        (update-held q (write_sse d) h t (λ x. refl) held.1))
  | inl hit ↦ rw hit (
      untargeted d p (write_sse d s) t (update q (write_sse d) h) (next hit)
        (not_target h p s t there (subst (λ k. Lacks k t) (own hit) once.0) held.1))
]
  where
    next :
        {b : Bool}
        → nat_eq q p ≡ b
        → load p (update q (write_sse d) h) ≡ some (if b then write_sse d s else s)
    next e =
        load-update q p (write_sse d) h s there ∙ ap (λ b. some (if b then write_sse d s else s)) e

    own : nat_eq q p ≡ true → id ≡ s.id
    own hit =
        sym held.0.2
        ∙ ap (λ (x : Session). x.id)
            (same_session (sym held.0.1 ∙ ap (λ k. load k h) (same_pointer q p hit) ∙ there))

-- A message that is broadcast reaches each session that the table points to, once: each of its open
-- and connected writers gets it as its last event, in order, and the others are forgotten. A session
-- that the table does not point to is as it was, and so is the table.
pub broadcast-live :
    (d : Raw) (m : Manager) (p : ℕ) (s : Session)
    → IsFiled m
    → load p m.heap ≡ some s
    → (load p (broadcast d m).heap
        ≡ some (record s {
          writers = if is_target p m.sessions then map (push d) (live s.writers) else s.writers;
        }))
      × ((broadcast d m).sessions ≡ m.sessions)
unfolding broadcast write_sse
broadcast-live d m p s filed there = (
  broadcast_to-load d p s m.sessions m.heap there filed.once filed.held
      ∙ ap some (written (is_target p m.sessions)),
  refl,
)
  where
    written :
        (b : Bool)
        → (if b then write_sse d s else s)
          ≡ record s { writers = if b then map (push d) (live s.writers) else s.writers }
    written true = ap (λ ws. record s { writers = ws }) (write_each-live d s.writers)
    written false = refl
