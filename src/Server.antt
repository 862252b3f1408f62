-- ===== src/Server.antt =====
-- framework/server: the server (server.go). The transport is any implementation `T` of the
-- interface, and `H` is the type of HTTP handlers. The logger and the flag `initialized` are part
-- of the world that the handlers act on.
pub mod Dispatch
pub mod Options
pub mod Run
pub mod Typed
use custom_mcps.Prelude.{ℕ, String, Option, List}
use custom_mcps.Registry.{Registry}
use custom_mcps.Auth.{Authenticator}
use custom_mcps.Middleware.{Middleware}

pub record Server (T H : Type 0) : Type 0 where
  pub name : String
  pub version : String
  pub transport : Option T
  pub registry : Registry
  pub auth : Authenticator
  pub middlewares : List Middleware
  pub http_middlewares : List (H → H)
  pub instructions : String
  pub tls_cert_file : String
  pub tls_key_file : String
  pub address : String
  pub shutdown_timeout : ℕ

-- `Registry`
abbrev pub registry_of : {T H : Type 0} → Server T H → Registry
registry_of s = s.registry
