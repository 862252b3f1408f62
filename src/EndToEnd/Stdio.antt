-- ===== src/EndToEnd/Stdio.antt =====
-- The stdio loop with the server's handler.
use custom_mcps.Prelude.{List, [], ◌∷◌, ◌++◌, map, ◌≡◌, All}
use custom_mcps.Json.{Json, Raw, encoded}
use custom_mcps.Context.{Context}
use custom_mcps.Protocol.Errors.{value}
use custom_mcps.Protocol.Message.{Request, request, parse_message}
use custom_mcps.Registry.{GoRuntime}
use custom_mcps.Server.{Server}
use custom_mcps.Server.Run.{run_handler}
use custom_mcps.Server.Run.Safety.{run_handler_returns}
use custom_mcps.Transport.Stdio.{Event, line, Output, finished, start}
use custom_mcps.Transport.Stdio.Laws.{
  Pairwise, Replies, as_lines, Writable, start-Replies, ending, start-ending,
}
use custom_mcps.EndToEnd.{AnswersTo, run_handler-AnswersTo}

module _ (runtime : GoRuntime) {T H : Type 0} (s : Server T H) (ctx : Context) where
  -- Whatever the user's middleware and handlers do, and whatever lines arrive and writes fail, the
  -- server on stdio ends, and as its input does: with nil at a canceled context or at the end of
  -- the input, and else with the read error; never by a panic.
  pub start-run_handler :
      (events : List Event) (out : Output)
      → (start ctx (run_handler runtime s) events out).1 ≡ ending events
  start-run_handler events out =
      start-ending ctx (run_handler runtime s) events out
        (λ raw w. run_handler_returns runtime s ctx raw w)

  abbrev pub IsRequest : Json → Type 0
  IsRequest v = (r : Request) × (parse_message runtime.read_any (encoded v) ≡ value (request r))

  All-reply :
      (ls : List Json)
      → s.middlewares ≡ []
      → All IsRequest ls
      → All (λ v. Replies (run_handler runtime s) ctx (AnswersTo runtime) (encoded v)) ls
  All-reply [] bare h = tt
  All-reply (l ∷ ls) bare ((r, parsed), hs) =
      (λ w. run_handler-AnswersTo runtime s ctx (encoded l) w r bare parsed, All-reply ls bare hs)

  -- A server without user middleware, on an output that can be written, answers an input of requests
  -- with one line for each, in their order, each a result or an error under the id of its own
  -- request, also where a handler panics; and then it ends with nil.
  pub start-AnswersTo :
      (ls : List Json) (out : Output)
      → s.middlewares ≡ []
      → Writable out
      → All IsRequest ls
      → let end_ = start ctx (run_handler runtime s) (map (λ v. line (encoded v)) ls) out in
        (rs : List Raw) × (end_.1 ≡ finished)
        × (end_.0.written ≡ out.written ++ as_lines rs)
        × Pairwise (AnswersTo runtime) (map encoded ls) rs
  start-AnswersTo ls out bare writable h =
      start-Replies ctx (run_handler runtime s) (AnswersTo runtime) ls out writable
        (All-reply ls bare h)
