-- ===== src/Tests.antt =====
-- Tests of the definitions, and the theorems at concrete inputs.
mod Server
mod Transport
mod Streamable
mod Middleware
mod Print
mod Schema
mod Calls
mod Cloudflare
mod RateLimit
mod Sse
mod Metrics
mod EndToEnd
mod Locks
