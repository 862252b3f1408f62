-- ===== src/Cloudflare/Run.antt =====
-- cmd/servers/cloudflare/main.go: `run`, from the environment to the error that `main` logs.
use custom_mcps.Prelude.{ℕ, Option, none, some, Outcome, returns, panics}
use custom_mcps.Auth.{Env}
use custom_mcps.Library.{GoLibrary}
use custom_mcps.World.{MessageHandler}
use custom_mcps.Protocol.Errors.{GoError, wrap}
use custom_mcps.Registry.{GoRuntime}
use custom_mcps.Server.{Server}
use custom_mcps.Server.Run
use custom_mcps.Cloudflare.{Transport, build_server}
use custom_mcps.Cloudflare.Tools.{register_tools}

abbrev pub server_run : Option GoError → Option GoError
server_run none = none
server_run (some e) = some (wrap "server run: " e)

module _ (lib : GoLibrary) (runtime : GoRuntime) {H : Type 0}
    (start : Option (Transport H) → MessageHandler → Option GoError) where
  abbrev pub run_server : Outcome (Server (Transport H) H) → Outcome (Option GoError)
  run_server (panics p) = panics p
  run_server (returns s) = returns (server_run (Run.run runtime s start))

  -- `start` is how the transport's `Start` ends, with the context that the signals cancel.
  unfoldable pub run : Env → Outcome (Option GoError)
  run env = run_server (register_tools lib (build_server env))

-- `main`: the status that the process exits with.
abbrev pub exit_status : Option GoError → ℕ
exit_status none = 0
exit_status (some e) = 1
