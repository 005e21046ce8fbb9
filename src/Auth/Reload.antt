-- ===== src/Auth/Reload.antt =====
-- crates/rustyice-auth/src/toml_bcrypt.rs: which passwords a source may use after a reload.
use rusty_ice.Prelude.{
  ◌≡◌, ◌↔◌, refl, inl, inr, true, Option, none, some, List, [], ◌∷◌, map, arith, Dict, lookup,
  insert, lookup-insert, bytes_eq, bytes_eq_iff, Bool-cases, Option-cases,
}
use rusty_ice.Core.Mount.{Text}
use rusty_ice.Core.Config.{Config, MountConfig}
use rusty_ice.Core.Config.Plain.{find_plain_mount, absent-find_plain_mount}
use rusty_ice.Core.Config.Paths.{Distinct}
use rusty_ice.Auth.{
  TomlBcryptAuth, collect_mounts, mount_map, verify_source, verify_default_source, reload,
}

password_of : Option MountConfig → Option Text → Option Text
password_of none old = old
password_of (some m) old = some m.source_password

lookup-collect_mounts :
    (path : Text) (ms : List MountConfig) (d : Dict Text)
    → Distinct (map (λ m. m.path) ms)
    → lookup path (collect_mounts d ms) ≡ password_of (find_plain_mount path ms) (lookup path d)
unfolding collect_mounts find_plain_mount password_of
lookup-collect_mounts path [] d h = refl
lookup-collect_mounts path (m ∷ ms) d (fresh, h) =
    let rest = lookup-collect_mounts path ms (insert m.path m.source_password d) h in
    let here = lookup-insert path m.path m.source_password d in
    elim (Bool-cases (bytes_eq path m.path)) [
      | inl same ↦
          let e = (bytes_eq_iff path m.path).0 same in
          let gone = absent-find_plain_mount path ms (rw e fresh) in
          ground (arith, same, rest, here, gone)
      | inr other ↦ ground (arith, other, rest, here)
    ]

-- What a source must show for a path: the password of its plain mount, or else the global one.
unfoldable pub expected : Config → Text → Option Text
expected cfg path = elim (find_plain_mount path cfg.mounts) [
  | some m ↦ some m.source_password
  | none ↦ cfg.auth.source_password
]

-- After a reload to a configuration whose plain mounts have different paths, a password opens a path
-- exactly when it is the source password of the plain mount there, or, where there is none, the global
-- source password that is configured; what was configured before does not matter.
pub verify_source-reload :
    (cfg : Config) (a : TomlBcryptAuth) (path password : Text)
    → Distinct (map (λ m. m.path) cfg.mounts)
    → (verify_source path password (reload cfg a) ≡ true) ↔ (expected cfg path ≡ some password)
unfolding verify_source verify_default_source reload mount_map expected lookup password_of
verify_source-reload cfg a path password h =
    let stored = lookup-collect_mounts path cfg.mounts [] h in
    elim (Option-cases (find_plain_mount path cfg.mounts)) [
      | inl f ↦ elim (Option-cases cfg.auth.source_password) [
        | inl g ↦ ground (arith, stored, f, g)
        | inr (p, g) ↦ ground (arith, stored, f, g, bytes_eq_iff p password)
      ]
      | inr (m, f) ↦ ground (arith, stored, f, bytes_eq_iff m.source_password password)
    ]
