-- ===== src/Server.antt =====
-- The crate crates/rustyice-server.
mod Tests
pub mod Bus
pub mod Chunked
pub mod ConfigReload
pub mod Relay
pub mod SourceHeaders
pub mod SourceProtocol
pub mod StreamRouter
