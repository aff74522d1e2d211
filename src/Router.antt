-- ===== src/Router.antt =====
-- apps/router/src: the data path, which frames the wire protocol, finds the project, and pools.
pub mod Bytes
pub mod Text
pub mod Protocol
pub mod Cancel
pub mod Routes
pub mod Resolve
pub mod Pool
pub mod Session
pub mod Framed
pub mod Scram
mod Tests
