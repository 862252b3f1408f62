-- ===== src/Server/Run.antt =====
-- framework/server/server.go: `Run`, the handler chain that it builds and how a transport starts
-- with it.
pub mod Logged
pub mod Safety
use custom_mcps.Prelude.{String, Option, none, some, List, [], ◌∷◌}
use custom_mcps.World.{MessageHandler}
use custom_mcps.Protocol.Errors.{GoError, wrap}
use custom_mcps.Middleware.{Middleware, chain, recovery, logging}
use custom_mcps.Registry.{GoRuntime}
use custom_mcps.Server.{Server}
use custom_mcps.Server.Dispatch.{dispatch}

-- Nothing is wrapped where there is no middleware.
unfoldable pub around : List Middleware → MessageHandler → MessageHandler
around [] base = base
around (m ∷ ms) base = chain (m ∷ ms) base

module _ (runtime : GoRuntime) {T H : Type 0} (s : Server T H) where
  -- The user's middleware, closest to the router.
  unfoldable pub user_chain : MessageHandler
  unfolding around
  user_chain = around s.middlewares (dispatch runtime s)

  -- Recovery outermost, then logging.
  unfoldable pub run_handler : MessageHandler
  unfolding user_chain
  run_handler = chain (recovery ∷ logging ∷ []) user_chain

  -- `start` is the transport's `Start`: it returns nil or an error.
  unfoldable pub run : (start : Option T → MessageHandler → Option GoError) → Option GoError
  run start = elim (start s.transport run_handler) [
    | some e ↦ some (wrap "running transport: " e)
    | none ↦ none
  ]
