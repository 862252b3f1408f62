-- ===== src/Transport.antt =====
-- framework/transport: sessions and the transports.
pub mod Session
pub mod Lifecycle
pub mod Streamable
pub mod Stdio
pub mod Sse
