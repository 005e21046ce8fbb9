-- ===== src/Core.antt =====
-- The crate crates/rustyice-core: the types that the other crates exchange.
pub mod Types
pub mod Config
pub mod Identity
pub mod Mount
pub mod Toml
mod Tests
