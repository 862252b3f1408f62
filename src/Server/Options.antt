-- ===== src/Server/Options.antt =====
-- framework/server: `New` and the functional options (server.go, options.go).
use custom_mcps.Prelude.{ℕ, String, Option, none, some, List, [], ◌∷◌, ◌++◌}
use custom_mcps.Registry.{empty_registry}
use custom_mcps.Auth.{Authenticator, noop}
use custom_mcps.Middleware.{Middleware}
use custom_mcps.Server.{Server}

abbrev pub ServerOption : Type 0 → Type 0 → Type 0
ServerOption T H = Server T H → Server T H

abbrev pub or_stdio : {T : Type 0} → T → Option T → T
or_stdio stdio none = stdio
or_stdio stdio (some t) = t

module _ {T H : Type 0} where
  abbrev pub with_name : String → ServerOption T H
  with_name name s = record s { name = name }

  abbrev pub with_version : String → ServerOption T H
  with_version version s = record s { version = version }

  abbrev pub with_transport : T → ServerOption T H
  with_transport t s = record s { transport = some t }

  abbrev pub with_authenticator : Authenticator → ServerOption T H
  with_authenticator a s = record s { auth = a }

  abbrev pub with_middleware : List Middleware → ServerOption T H
  with_middleware mws s = record s { middlewares = s.middlewares ++ mws }

  abbrev pub with_http_middleware : List (H → H) → ServerOption T H
  with_http_middleware mws s = record s { http_middlewares = s.http_middlewares ++ mws }

  abbrev pub with_tls : String → String → ServerOption T H
  with_tls cert_file key_file s = record s { tls_cert_file = cert_file; tls_key_file = key_file }

  abbrev pub with_address : String → ServerOption T H
  with_address addr s = record s { address = addr }

  abbrev pub with_graceful_shutdown : ℕ → ServerOption T H
  with_graceful_shutdown timeout s = record s { shutdown_timeout = timeout }

  abbrev pub with_instructions : String → ServerOption T H
  with_instructions instructions s = record s { instructions = instructions }

  abbrev pub default_server : Server T H
  default_server = record {
    name = "mcp-server";
    version = "1.0.0";
    transport = none;
    registry = empty_registry;
    auth = noop;
    middlewares = [];
    http_middlewares = [];
    instructions = "";
    tls_cert_file = "";
    tls_key_file = "";
    address = "";
    shutdown_timeout = 0;
  }

  abbrev pub apply_options : List (ServerOption T H) → Server T H → Server T H
  apply_options [] s = s
  apply_options (opt ∷ opts) s = apply_options opts (opt s)

  -- `stdio` is the transport that `NewStdio` makes.
  unfoldable pub new_server : (stdio : T) → List (ServerOption T H) → Server T H
  new_server stdio opts =
      let s = apply_options opts default_server in
      record s { transport = some (or_stdio stdio s.transport) }
