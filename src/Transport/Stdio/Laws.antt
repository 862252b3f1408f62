-- ===== src/Transport/Stdio/Laws.antt =====
-- The stdio loop answers line by line, in order, and says how it ends.
use custom_mcps.Prelude.{
  ℕ, suc, String, true, false, Option, none, some, List, [], ◌∷◌, ◌++◌, Outcome, returns, panics,
  ◌≡◌, refl, sym, ap, ◌∙◌, All, map, append_assoc, append-nil, ◌<>◌,
}
use custom_mcps.Json.{Json, Raw, absent, malformed, encoded}
use custom_mcps.Context.{Context}
use custom_mcps.World.{World, MessageHandler}
use custom_mcps.Transport.Stdio.{
  Event, line, canceled, read_error, Chunk, message, newline, Output, End, finished, failed,
  line_written, message_written, write_line, logged, after_reply, start,
}

-- The n-th reply is related to the n-th line.
abbrev pub Pairwise : (Raw → Raw → Type 0) → List Raw → List Raw → Type 0
Pairwise R [] [] = Unit {0}
Pairwise R (l ∷ ls) (r ∷ rs) = R l r × Pairwise R ls rs
Pairwise R _ _ = ⊥

-- The handler returns on this line, whatever the world, a response that is not nil and is related
-- to the line.
abbrev pub Replies : MessageHandler → Context → (Raw → Raw → Type 0) → Raw → Type 0
Replies handler ctx R l =
    (w : World) → (v : Json) × ((handler ctx l w).1 ≡ returns (encoded v)) × R l (encoded v)

-- Each message with a newline behind it.
abbrev pub as_lines : List Raw → List Chunk
as_lines [] = []
as_lines (r ∷ rs) = message r ∷ newline ∷ as_lines rs

-- Every `Write` succeeds.
abbrev pub Writable : Output → Type 0
Writable out = (n : ℕ) → out.fails n ≡ none

-- The output behind a line that could be written.
abbrev put_line : Raw → Output → Output
put_line r out = record out {
  written = out.written ++ (message r ∷ newline ∷ []);
  writes = suc (suc out.writes);
}

write_line-Writable :
    (r : Raw) (out : Output) → Writable out → write_line r out ≡ (put_line r out, none)
unfolding write_line
write_line-Writable r out ok_ =
    ap (λ f. message_written (attempt f)) (ok_ out.writes)
    ∙ ap (λ f. line_written (second f)) (ok_ (suc out.writes))
    ∙ ap (λ l. (record out { written = l; writes = suc (suc out.writes) }, none))
        (append_assoc out.written (message r ∷ []) (newline ∷ []))
  where
    attempt : Option String → Output × Option String
    attempt none =
        (record out { written = out.written ++ (message r ∷ []); writes = suc out.writes }, none)
    attempt (some e) = (record out { writes = suc out.writes }, some e)

    second : Option String → Output × Option String
    second none = (
      record out {
        written = (out.written ++ (message r ∷ [])) ++ (newline ∷ []);
        writes = suc (suc out.writes);
      },
      none,
    )
    second (some e) = (
      record out { written = out.written ++ (message r ∷ []); writes = suc (suc out.writes) },
      some e,
    )

-- If the handler replies to each line of the input and every write to the output succeeds, the loop
-- ends at the end of the input, with one line written for each line read, in the order of the input.
pub start-Replies :
    (ctx : Context) (handler : MessageHandler) (R : Raw → Raw → Type 0) (ls : List Json)
    (out : Output)
    → Writable out
    → All (λ v. Replies handler ctx R (encoded v)) ls
    → (rs : List Raw) × ((start ctx handler (map (λ v. line (encoded v)) ls) out).1 ≡ finished)
      × ((start ctx handler (map (λ v. line (encoded v)) ls) out).0.written
          ≡ out.written ++ as_lines rs)
      × Pairwise R (map encoded ls) rs
unfolding start
start-Replies ctx handler R [] out ok_ h = ([], refl, sym (append-nil out.written), tt)
start-Replies ctx handler R (l ∷ ls) out ok_ (h, hs) =
    let (v, e, related) = h out.world in
    let took : Output = record out { world = (handler ctx (encoded l) out.world).0 } in
    let next : Output = put_line (encoded v) took in
    let (rs, ended, written, paired) = start-Replies ctx handler R ls next ok_ hs in
    let rest = start ctx handler (map (λ v. line (encoded v)) ls) in
    let step =
      ap (after_reply rest out (handler ctx (encoded l) out.world).0) e
      ∙ ap (λ o. rest (logged o)) (write_line-Writable (encoded v) took ok_) in
    (
      encoded v ∷ rs,
      ap (λ x. x.1) step ∙ ended,
      ap (λ x. x.0.written) step
          ∙ written
          ∙ append_assoc out.written (message (encoded v) ∷ newline ∷ []) (as_lines rs),
      (related, paired),
    )

-- The handler never panics.
abbrev pub AlwaysReturns : MessageHandler → Context → Type 0
AlwaysReturns handler ctx =
    (raw : Raw) (w : World) → (resp : Raw) × ((handler ctx raw w).1 ≡ returns resp)

-- How the input ends: at a canceled context, at a read error, or with its last line.
abbrev pub ending : List Event → End
ending [] = finished
ending (canceled ∷ events) = finished
ending (read_error true e ∷ events) = finished
ending (read_error false e ∷ events) = failed ("reading input: " <> e)
ending (line raw ∷ events) = ending events

after_reply-ends :
    (rest : Output → Output × End) (E : End) (out : Output) (w : World) (reply : Outcome Raw)
    → ((o : Output) → (rest o).1 ≡ E)
    → (resp : Raw) × (reply ≡ returns resp)
    → (after_reply rest out w reply).1 ≡ E
after_reply-ends rest E out w (returns absent) each h = each _
after_reply-ends rest E out w (returns (malformed e)) each h = each _
after_reply-ends rest E out w (returns (encoded v)) each h = each _
after_reply-ends rest E out w (panics p) each (resp, e) = cc

-- With a handler that never panics the loop ends, and only its input says how: with nil where the
-- context is canceled or the input ends, and else with the read error. No message, no response and
-- no failure to write one stops it earlier.
pub start-ending :
    (ctx : Context) (handler : MessageHandler) (events : List Event) (out : Output)
    → AlwaysReturns handler ctx
    → (start ctx handler events out).1 ≡ ending events
unfolding start
start-ending ctx handler [] out h = refl
start-ending ctx handler (canceled ∷ events) out h = refl
start-ending ctx handler (read_error true e ∷ events) out h = refl
start-ending ctx handler (read_error false e ∷ events) out h = refl
start-ending ctx handler (line absent ∷ events) out h = start-ending ctx handler events out h
start-ending ctx handler (line (malformed e) ∷ events) out h =
    after_reply-ends (start ctx handler events) (ending events) out
      (handler ctx (malformed e) out.world).0 (handler ctx (malformed e) out.world).1
      (λ o. start-ending ctx handler events o h) (h (malformed e) out.world)
start-ending ctx handler (line (encoded v) ∷ events) out h =
    after_reply-ends (start ctx handler events) (ending events) out
      (handler ctx (encoded v) out.world).0 (handler ctx (encoded v) out.world).1
      (λ o. start-ending ctx handler events o h) (h (encoded v) out.world)
