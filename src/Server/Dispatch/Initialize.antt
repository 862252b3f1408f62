-- ===== src/Server/Dispatch/Initialize.antt =====
-- framework/server/server.go: what `initialize` tells the client.
use custom_mcps.Prelude.{String, List, [], ◌∷◌, ◌++◌, Result, ok, err}
use custom_mcps.Json.{Json, text}
use custom_mcps.Context.{Context}
use custom_mcps.World.{World}
use custom_mcps.Protocol.Errors.{code_invalid_params}
use custom_mcps.Protocol.Payloads.{InitializeParams, protocol_version}
use custom_mcps.Protocol.Payloads.Encoding.{fields, text_unless_empty}
use custom_mcps.Registry.{GoRuntime}
use custom_mcps.Server.{Server}
use custom_mcps.Server.Dispatch.{Reply}
use custom_mcps.Server.Dispatch.Replies.{error_object}
use custom_mcps.Server.Dispatch.Branches.{answered, failed}
use mathlib.Core.List.{Perm}
use mathlib.Core.List.Perm

-- A capability stands in the answer, as an empty object, if there is anything to offer under it.
abbrev pub offered {ℓ} : {A : Type ℓ} → String → List A → List (String × Json)
offered key [] = []
offered key (a ∷ rest) = (key, fields []) ∷ []

-- The answer, in terms of what is registered.
abbrev pub welcome : {T H : Type 0} → Server T H → Json
welcome s = fields (
    ("protocolVersion", text protocol_version)
    ∷ (
      "capabilities",
      fields (
          offered "tools" s.registry.tools
          ++ offered "resources" s.registry.resources
          ++ offered "prompts" s.registry.prompts),
    )
    ∷ ("serverInfo", fields (("name", text s.name) ∷ ("version", text s.version) ∷ []))
    ∷ text_unless_empty "instructions" s.instructions)

module _ (runtime : GoRuntime) {T H : Type 0} (s : Server T H) where
  -- What `initialize` is answered: an error where its parameters are there and do not decode.
  abbrev pub initialized : World → Json → Result InitializeParams → Reply
  initialized w id (ok p) = answered id (welcome s) w
  initialized w id (err e) = failed id (error_object code_invalid_params e []) w
