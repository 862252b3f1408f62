-- ===== src/Protocol/Payloads.antt =====
-- framework/protocol: the payloads of the MCP methods that the server reads and writes.
pub mod Encoding
mod Mcp
mod Tools
mod Resources
mod Prompts
unfoldable pub use Encoding.*
unfoldable pub use Mcp.*
unfoldable pub use Tools.*
unfoldable pub use Resources.*
unfoldable pub use Prompts.*
