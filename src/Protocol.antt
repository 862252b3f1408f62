-- ===== src/Protocol.antt =====
-- framework/protocol: JSON-RPC 2.0 messages, error objects and the MCP payloads.
pub mod Errors
pub mod Message
pub mod Payloads
pub mod Parse
