-- ===== src/Admin.antt =====
-- The crate crates/rustyice-admin.
mod Tests
pub mod Listeners
pub mod Sessions
pub mod ConfigWrite
pub mod ConfigApi
pub mod Login
pub mod AtomicWrite
