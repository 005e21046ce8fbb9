-- ===== src/Auth.antt =====
-- crates/rustyice-auth/src/toml_bcrypt.rs: `TomlBcryptAuth`. The hash check of the bcrypt library is an
-- argument, whose `none` is an error.
mod Tests
pub mod Reload
use rusty_ice.Prelude.{
  Bool, true, false, Option, none, some, List, [], ◌∷◌, Dict, lookup, insert, bytes_eq,
}
use rusty_ice.Core.Mount.{Text}
use rusty_ice.Core.Config.{Config, UserConfig, MountConfig}

pub record TomlBcryptAuth : Type 0 where
  pub users : Dict Text
  pub mount_passwords : Dict Text
  pub default_source_password : Option Text

-- `collect` into a map: a later entry replaces an earlier one.
unfoldable pub collect_users : Dict Text → List UserConfig → Dict Text
collect_users d [] = d
collect_users d (u ∷ us) = collect_users (insert u.username u.password_bcrypt d) us

unfoldable pub collect_mounts : Dict Text → List MountConfig → Dict Text
collect_mounts d [] = d
collect_mounts d (m ∷ ms) = collect_mounts (insert m.path m.source_password d) ms

unfoldable pub user_map : Config → Dict Text
user_map config = collect_users [] config.auth.users

unfoldable pub mount_map : Config → Dict Text
mount_map config = collect_mounts [] config.mounts

unfoldable pub new : Config → TomlBcryptAuth
new config = record {
  users = user_map config;
  mount_passwords = mount_map config;
  default_source_password = config.auth.source_password;
}

unfoldable pub verify_admin :
    (Text → Text → Option Bool) → Text → Text → TomlBcryptAuth → Option Bool
verify_admin bcrypt username password a = elim (lookup username a.users) [
  | none ↦ some false
  | some hash ↦ bcrypt password hash
]

unfoldable pub verify_default_source : Text → TomlBcryptAuth → Bool
verify_default_source password a = elim a.default_source_password [
  | none ↦ false
  | some p ↦ bytes_eq p password
]

unfoldable pub verify_source : Text → Text → TomlBcryptAuth → Bool
verify_source mount_path password a = elim (lookup mount_path a.mount_passwords) [
  | some stored ↦ bytes_eq stored password
  | none ↦ verify_default_source password a
]

unfoldable pub reload : Config → TomlBcryptAuth → TomlBcryptAuth
reload config a = record a {
  users = user_map config;
  mount_passwords = mount_map config;
  default_source_password = config.auth.source_password;
}
