-- ===== src/Server/ConfigReload.antt =====
-- crates/rustyice-server/src/config_reload.rs: a configuration is applied to the running server.
pub mod Registry
pub mod Diff
pub mod Kinds
pub mod Apply
pub mod Follow
pub mod Outcome
pub mod Laws
pub mod Synced
pub mod Mounts
pub mod Capacity
pub mod Untouched
pub mod Fate
pub mod Tracked
pub mod Refusal
mod Tests
