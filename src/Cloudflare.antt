-- ===== src/Cloudflare.antt =====
-- cmd/servers/cloudflare: the configuration of the DNS server and how `run` puts it together, up to
-- the registration of its tools.
pub mod Inputs
pub mod Tools
pub mod Run
pub mod Published
pub mod Served
pub mod Conforming
pub mod Calls
pub mod Refused
use custom_mcps.Prelude.{
  String, some, List, [], ◌∷◌, ◌++◌, ◌≡◌, ◌≢◌, refl, ◌==◌, if◌then◌else◌, eq_of_ne,
}
use custom_mcps.Context.{Context}
use custom_mcps.Http.{HttpRequest, Writer}
use custom_mcps.Auth.{Env, bearer_with_tokens, authenticate}
use custom_mcps.Server.{Server}
use custom_mcps.Server.Options.{
  ServerOption, with_name, with_version, with_transport, with_authenticator, new_server,
}
use custom_mcps.Transport.Streamable
use custom_mcps.Transport.Streamable.{StreamableTransport, with_addr, new_streamable_http}

pub record Config : Type 0 where
  pub transport : String
  pub addr : String
  pub api_token : String
  pub mcp_auth_token : String

abbrev pub env_or_default : Env → String → String → String
env_or_default env key fallback = if env key == "" then fallback else env key

unfoldable pub load_config : Env → Config
load_config env = record {
  transport = env_or_default env "CF_TRANSPORT" "stdio";
  addr = env_or_default env "CF_ADDR" ":8080";
  api_token = env "CF_API_TOKEN";
  mcp_auth_token = env "CF_MCP_TOKEN";
}

-- The transports that `run` chooses from.
pub data Transport (H : Type 0) : Type 0 where
  stdio : Transport H
  streamable : StreamableTransport H → Transport H

module _ {H : Type 0} where
  unfoldable pub choose_transport : Config → Transport H
  choose_transport cfg =
      if cfg.transport == "http"
      then streamable (new_streamable_http (with_addr cfg.addr ∷ []))
      else stdio

  unfoldable pub server_options : Config → List (ServerOption (Transport H) H)
  unfolding choose_transport
  server_options cfg =
      (with_name "cloudflare-mcp"
        ∷ with_version "0.1.0"
        ∷ with_transport (choose_transport cfg)
        ∷ [])
      ++ (if cfg.mcp_auth_token == ""
          then []
          else with_authenticator (authenticate (bearer_with_tokens (cfg.mcp_auth_token ∷ [])))
            ∷ [])

  -- `run`, up to the registration of the tools.
  unfoldable pub build_server : Env → Server (Transport H) H
  build_server env = new_server stdio (server_options (load_config env))

-- In HTTP mode a configured CF_MCP_TOKEN becomes the server's authenticator, and the transport that
-- serves the requests has none: it lets every request through, whatever token it carries.
pub http_mode_unprotected :
    {H : Type 0} (env now : Env) (ctx : Context) (r : HttpRequest) (w : Writer)
    → env "CF_TRANSPORT" ≡ "http"
    → env "CF_MCP_TOKEN" ≢ ""
    → (t : StreamableTransport H) × ((build_server {H = H} env).transport ≡ some (streamable t))
      × ((build_server {H = H} env).auth
          ≡ authenticate (bearer_with_tokens (env "CF_MCP_TOKEN" ∷ [])))
      × (Streamable.authenticate t now ctx r w ≡ (w, some ctx))
unfolding build_server new_server load_config server_options new_streamable_http
    Streamable.authenticate
http_mode_unprotected env now ctx r w http token =
    rw (eq_of_ne _ _ token, http) (_, refl, refl, refl)
