-- ===== src/Admin/ConfigWrite/Validate/Entries.antt =====
-- crates/rustyice-admin/src/config_write.rs: the loops of the validators over the entries of a section.
use rusty_ice.Prelude.{
  ℕ, ◌+◌, Bool, false, not, ◌||◌, Option, none, List, [], ◌∷◌, ◌++◌, ascii, bytes_eq,
}
use rusty_ice.Core.Mount.{Text}
use rusty_ice.Core.Config.{contains}
use rusty_ice.Admin.ConfigWrite.{
  MountSubPatch, MountsPatch, UserSubPatch, UsersPatch, AutoDjSubPatch, AutoDjsPatch, RelaySubPatch,
  RelaysPatch, WriteError,
}
use rusty_ice.Admin.ConfigWrite.Validate.{
  error, ◌or_else◌, fails_if, is_blank, entry_prefix, check_path, check_mount, check_user,
  check_autodj, check_relay_patch,
}

-- What one loop checks: the key that may not repeat, and the checks before and after that for
-- repetition.
pub record Section (Entry : Type 0) : Type 0 where
  pub list : Text
  pub key_field : Text
  pub key : Entry → Text
  pub repeated : Text
  pub check_key : Text → Text → Option WriteError
  pub check_rest : Text → Entry → Option WriteError

module _ {Entry : Type 0} (s : Section Entry) where
  unfoldable pub check_entry : List Text → ℕ → Entry → Option WriteError
  check_entry seen idx e =
      let prefix = entry_prefix s.list idx in
      let field = prefix ++ s.key_field in
      s.check_key field (s.key e)
      or_else fails_if (contains (s.key e) seen) (error field (s.repeated ++ s.key e))
      or_else s.check_rest prefix e

  unfoldable pub validate_entries : List Text → ℕ → List Entry → Option WriteError
  validate_entries seen idx [] = none
  validate_entries seen idx (e ∷ es) =
      let rest = validate_entries (s.key e ∷ seen) (idx + 1) es in
      check_entry seen idx e or_else rest

unfoldable pub mount_section : Section MountSubPatch
mount_section = record {
  list = ascii "mounts";
  key_field = ascii ".path";
  key = λ m. m.path;
  repeated = ascii "duplicate mount path: ";
  check_key = check_path;
  check_rest = check_mount;
}

unfoldable pub check_username : Text → Text → Option WriteError
check_username field name = fails_if (is_blank name) (error field (ascii "must be non-empty"))

unfoldable pub user_section : Section UserSubPatch
user_section = record {
  list = ascii "users";
  key_field = ascii ".username";
  key = λ u. u.username;
  repeated = ascii "duplicate username: ";
  check_key = check_username;
  check_rest = check_user;
}

unfoldable pub autodj_section : Section AutoDjSubPatch
autodj_section = record {
  list = ascii "autodjs";
  key_field = ascii ".mount";
  key = λ a. a.mount;
  repeated = ascii "duplicate autodj mount path: ";
  check_key = check_path;
  check_rest = check_autodj;
}

unfoldable pub relay_section : Section RelaySubPatch
relay_section = record {
  list = ascii "relays";
  key_field = ascii ".mount";
  key = λ r. r.mount;
  repeated = ascii "duplicate relay mount path: ";
  check_key = check_path;
  check_rest = check_relay_patch;
}

unfoldable pub validate_mounts_patch : MountsPatch → Option WriteError
validate_mounts_patch p = validate_entries mount_section [] 0 p.mounts

unfoldable pub has_admin : List UserSubPatch → Bool
has_admin [] = false
has_admin (u ∷ us) = bytes_eq u.role (ascii "admin") || has_admin us

unfoldable pub validate_users_patch : UsersPatch → Option WriteError
validate_users_patch p =
    validate_entries user_section [] 0 p.users
    or_else fails_if (not (has_admin p.users))
        (error (ascii "users") (ascii "at least one user must have the admin role"))

unfoldable pub validate_autodjs_patch : AutoDjsPatch → Option WriteError
validate_autodjs_patch p = validate_entries autodj_section [] 0 p.autodjs

unfoldable pub validate_relays_patch : RelaysPatch → Option WriteError
validate_relays_patch p = validate_entries relay_section [] 0 p.relays
