-- ===== src/Output.antt =====
-- The crate crates/rustyice-output.
mod Tests
pub mod HttpPassthrough
