-- ===== src/Server/SourceProtocol.antt =====
-- crates/rustyice-server/src/source_protocol.rs: a source's connection.
pub mod Credentials
pub mod Password
pub mod Admission
pub mod Authorized
pub mod Leaving
pub mod Head
pub mod Body
mod Tests
