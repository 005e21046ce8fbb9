-- ===== src/Server/Relay.antt =====
-- crates/rustyice-server/src/relay: pulling an upstream stream.
pub mod Backoff
pub mod Run
pub mod Paced
mod Tests
