-- ===== src/Ingest.antt =====
-- The crate crates/rustyice-ingest.
pub mod Prefix
pub mod Reader
pub mod Run
mod Tests
