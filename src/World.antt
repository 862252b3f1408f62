-- ===== src/World.antt =====
-- The state that a message handler acts on: the server's `initialized` flag, the log, and the clock
-- that `time.Now` reads; and the type of message handlers, which middleware and transports share.
use custom_mcps.Prelude.{ℕ, suc, String, Bool, List, [], ◌∷◌, ◌++◌, Outcome}
use custom_mcps.Json.{Raw}
use custom_mcps.Context.{Context}

-- The records that the framework logs.
pub data LogEntry : Type 0 where
  request_canceled : LogEntry
  unknown_notification : String → LogEntry
  marshal_failed : String → LogEntry
  panic_recovered : String → LogEntry
  rpc_request : (method : String) (duration : ℕ) (has_error : Bool) → LogEntry
  write_failed : String → LogEntry
  scanner_failed : String → LogEntry

-- `clock n` is what the n-th reading of the clock gives.
pub record World : Type 0 where
  pub initialized : Bool
  pub log : List LogEntry
  pub clock : ℕ → ℕ
  pub reads : ℕ

abbrev pub add_log : LogEntry → World → World
add_log e w = record w { log = w.log ++ (e ∷ []) }

-- `time.Now`
abbrev pub now : World → ℕ
now w = w.clock w.reads

abbrev pub after_reading : World → World
after_reading w = record w { reads = suc w.reads }

-- `MessageHandler` of the packages middleware and transport: no response is `absent`.
abbrev pub MessageHandler : Type 0
MessageHandler = Context → Raw → World → World × Outcome Raw
