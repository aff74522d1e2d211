-- ===== src/Router/Tests.antt =====
-- The theorems about apps/router/src at concrete inputs.
mod Codec
mod Wire
mod Routing
mod Pooling
mod Sessions
mod Sockets
mod Exchanges
