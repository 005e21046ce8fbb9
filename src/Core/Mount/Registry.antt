-- ===== src/Core/Mount/Registry.antt =====
-- crates/rustyice-core/src/mount.rs: `MountRegistry`.
use rusty_ice.Prelude.{ℕ, Option, Dict, lookup, insert, erase}
use rusty_ice.Core.Mount.{Text, ActiveMount}

-- A mount with the sizes its bus was made with.
pub record Mount : Type 0 where
  pub active : ActiveMount
  pub ring_size : ℕ
  pub bus_burst : ℕ

unfoldable pub add : Mount → Dict Mount → Dict Mount
add m d = insert m.active.info.path m d

unfoldable pub remove : Text → Dict Mount → Dict Mount
remove path d = erase path d

unfoldable pub get : Text → Dict Mount → Option Mount
get path d = lookup path d
