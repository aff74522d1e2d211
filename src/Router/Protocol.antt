-- ===== src/Router/Protocol.antt =====
-- apps/router/src/protocol.ts: the Postgres frontend/backend protocol, as far as the router reads it.
pub mod Codes
pub mod BackendMessage
pub mod FrontendMessage
pub mod TransactionStatus
pub mod AuthRequest
pub mod Framing
pub mod Chunks
pub mod Stream
pub mod Startup
pub mod StartupRoundTrip
pub mod Messages
pub mod MessagesRoundTrip
