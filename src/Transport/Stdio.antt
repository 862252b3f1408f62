-- ===== src/Transport/Stdio.antt =====
-- framework/transport/stdio.go: the transport's options, and the loop over the lines of the input.
pub mod Laws
use custom_mcps.Prelude.{
  ℕ, suc, String, Bool, true, false, Option, none, some, List, [], ◌∷◌, ◌++◌, ◌*◌, Outcome, returns,
  panics, ◌<>◌,
}
use custom_mcps.Json.{Raw, absent}
use custom_mcps.Context.{Context}
use custom_mcps.World.{World, MessageHandler, add_log, LogEntry, write_failed, scanner_failed}

-- `I` is the type of readers, `O` of writers, and `L` of loggers.
pub record StdioTransport (I O L : Type 0) : Type 0 where
  pub input : I
  pub output : O
  pub logger : L

abbrev pub StdioOption : Type 0 → Type 0 → Type 0 → Type 0
StdioOption I O L = StdioTransport I O L → StdioTransport I O L

-- What `scanner.Scan` meets, in order: a line (`absent` is an empty one), or a read error; the list
-- ends where the input does. A read error counts only if the context is not canceled by then. Before each of them the context may be found canceled.
pub data Event : Type 0 where
  line : Raw → Event
  canceled : Event
  read_error : (canceled_too : Bool) → String → Event

-- What one `Write` puts out.
pub data Chunk : Type 0 where
  message : Raw → Chunk
  newline : Chunk

-- The world, and the output: the chunks whose `Write` succeeded, the number of calls, and what the
-- writer makes of each: `fails n` is the error of the n-th `Write`.
pub record Output : Type 0 where
  pub world : World
  pub written : List Chunk
  pub writes : ℕ
  pub fails : ℕ → Option String

-- How `Start` ends: with nil, with an error, or by a panic of the handler.
pub data End : Type 0 where
  finished : End
  failed : String → End
  crashed : String → End

-- `t.out.Write`
abbrev pub write_out : Chunk → Output → Output × Option String
write_out c out = elim (out.fails out.writes) [
  | none ↦ (record out { written = out.written ++ (c ∷ []); writes = suc out.writes }, none)
  | some e ↦ (record out { writes = suc out.writes }, some e)
]

abbrev pub line_written : Output × Option String → Output × Option String
line_written (out, none) = (out, none)
line_written (out, some e) = (out, some ("writing newline: " <> e))

abbrev pub message_written : Output × Option String → Output × Option String
message_written (out, none) = line_written (write_out newline out)
message_written (out, some e) = (out, some ("writing message: " <> e))

-- The message, and a newline behind it if it could be written.
unfoldable pub write_line : Raw → Output → Output × Option String
write_line resp out = message_written (write_out (message resp) out)

-- A failure to write is logged.
abbrev pub logged : Output × Option String → Output
logged (out, none) = out
logged (out, some e) = record out { world = add_log (write_failed e) out.world }

-- A response that is not nil is written, and the loop goes on with the next line, unless the handler
-- panics.
abbrev pub after_reply : (Output → Output × End) → Output → World → Outcome Raw → Output × End
after_reply rest out w (returns absent) = rest (record out { world = w })
after_reply rest out w (returns resp) = rest (logged (write_line resp (record out { world = w })))
after_reply rest out w (panics p) = (record out { world = w }, crashed p)

unfoldable pub start : Context → MessageHandler → List Event → Output → Output × End
start ctx handler [] out = (out, finished)
start ctx handler (canceled ∷ events) out = (out, finished)
start ctx handler (read_error true e ∷ events) out = (out, finished)
start ctx handler (read_error false e ∷ events) out =
    (record out { world = add_log (scanner_failed e) out.world }, failed ("reading input: " <> e))
start ctx handler (line absent ∷ events) out = start ctx handler events out
start ctx handler (line raw ∷ events) out =
    let (w, reply) = handler ctx raw out.world in after_reply (start ctx handler events) out w reply

-- `Send`
abbrev pub send : Raw → Output → Output × Option String
send = write_line

-- `Close` does nothing, and returns nil.
abbrev pub close : Option String
close = none

-- The size of the scanner's buffer.
abbrev pub line_limit : ℕ
line_limit = 1024 * 1024

module _ {I O L : Type 0} where
  abbrev pub with_stdio_input : I → StdioOption I O L
  with_stdio_input r t = record t { input = r }

  abbrev pub with_stdio_output : O → StdioOption I O L
  with_stdio_output w t = record t { output = w }

  abbrev pub with_stdio_logger : L → StdioOption I O L
  with_stdio_logger l t = record t { logger = l }

  abbrev pub apply_options : List (StdioOption I O L) → StdioTransport I O L → StdioTransport I O L
  apply_options [] t = t
  apply_options (opt ∷ opts) t = apply_options opts (opt t)

  -- `NewStdio`, with the process's streams and the default logger.
  unfoldable pub new_stdio :
      (stdin : I) (stdout : O) (logger : L) → List (StdioOption I O L) → StdioTransport I O L
  new_stdio stdin stdout logger opts =
      apply_options opts (record { input = stdin; output = stdout; logger = logger })

  -- `Start`: `scan` is the scanner, which with a buffer of a given size makes a reader into events,
  -- and `fails` is what the output's writer makes of each `Write`.
  unfoldable pub start_on :
      (scan : ℕ → I → List Event) (fails : O → ℕ → Option String)
      → StdioTransport I O L
      → Context
      → MessageHandler
      → World
      → Output × End
  start_on scan fails t ctx handler w =
      start ctx handler (scan line_limit t.input)
        (record { world = w; written = []; writes = 0; fails = fails t.output })
