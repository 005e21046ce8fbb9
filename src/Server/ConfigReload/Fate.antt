-- ===== src/Server/ConfigReload/Fate.antt =====
-- crates/rustyice-server/src/config_reload.rs: which mounts a reload leaves, updates and loses.
use rusty_ice.Prelude.{
  ◌≡◌, ◌⊎◌, refl, inl, inr, true, false, ◌||◌, none, some, List, ◌++◌, map, arith, lookup,
  Option-cases,
}
use rusty_ice.Core.Mount.{Text}
use rusty_ice.Core.Config.{Config, MountConfig, contains}
use rusty_ice.Core.Config.Paths.{Distinct, all_paths}
use rusty_ice.Core.Config.Plain.{find_plain_mount, contains-find_plain_mount}
use rusty_ice.Server.ConfigReload.Diff.{find, paths}
use rusty_ice.Server.ConfigReload.Kinds.{autodj, relay}
use rusty_ice.Server.ConfigReload.Apply.{
  AuthBackend, Server, warned, update_mounts, plain_stage, autodj_stage, relay_start, relay_stage,
  apply_diffs, apply_config,
}
use rusty_ice.Server.ConfigReload.Follow.{absent-find}
use rusty_ice.Server.ConfigReload.Outcome.{mount_next, contains-find}
use rusty_ice.Server.ConfigReload.Synced.{
  contains-append, Distinct-apart, apply_config-fine, apply_config-failed, apply_config-whole,
}
use rusty_ice.Server.ConfigReload.Untouched.{
  update_mounts-absent, remove_mounts-absent, diff-absent,
}
use rusty_ice.Server.ConfigReload.Mounts.{kept_or_made, plain_next, mounts-apply_diffs}

-- Where a path stands in a configuration.
contains-all_paths :
    (p : Text) (cfg : Config)
    → contains p (all_paths cfg) ≡ (
        contains p (map (λ m. m.path) cfg.mounts)
        || (contains p (paths autodj cfg.autodjs) || contains p (paths relay cfg.relays)))
unfolding paths autodj relay
contains-all_paths p cfg =
    let djs = map (λ a. a.mount) cfg.autodjs in
    let relays = map (λ r. r.mount) cfg.relays in
    ground (
      arith,
      contains-append p (map (λ m. m.path) cfg.mounts) (djs ++ relays),
      contains-append p djs relays,
    )

absent-all_paths :
    (p : Text) (cfg : Config)
    → contains p (all_paths cfg) ≡ false
    → (contains p (map (λ m. m.path) cfg.mounts) ≡ false)
      × (contains p (paths autodj cfg.autodjs) ≡ false)
      × (contains p (paths relay cfg.relays) ≡ false)
absent-all_paths p cfg h =
    let all = contains-all_paths p cfg in
    (ground (arith, all, h), ground (arith, all, h), ground (arith, all, h))

module _ {A : AuthBackend} where
  -- A mount whose path neither the configuration in force nor the new one names, as one that a source
  -- made for itself, is left as it is, whether or not the backend takes the new configuration and
  -- whether or not applying it panics.
  pub dynamic-apply_config :
      (p : Text) (cfg : Config) (s : Server A)
      → contains p (all_paths s.config) ≡ false
      → contains p (all_paths cfg) ≡ false
      → lookup p (apply_config cfg s).0.mounts ≡ lookup p s.mounts
  unfolding apply_diffs relay_stage relay_start autodj_stage plain_stage
  dynamic-apply_config p cfg s old new_ = elim (Option-cases (A.reload cfg s.auth).1) [
    | inr (error, failed) ↦ rw (apply_config-failed cfg s error failed) refl
    | inl fine ↦
        let plain = map (λ m. m.path) cfg.mounts in
        let kept = (update_mounts cfg.limits cfg.mounts s.mounts).0 in
        let (a1, a2, a3) = absent-all_paths p s.config old in
        let (b1, b2, b3) = absent-all_paths p cfg new_ in
        ground (
          arith,
          apply_config-fine cfg s fine,
          update_mounts-absent p cfg.limits cfg.mounts s.mounts b1,
          remove_mounts-absent p plain s.config.mounts kept a1,
          diff-absent autodj p cfg.limits s.config.autodjs cfg.autodjs (plain_stage cfg s) a2 b2,
          diff-absent relay p cfg.limits s.config.relays cfg.relays (relay_start cfg s) a3 b3,
        )
  ]

  -- After a reload that is applied to the end, each plain mount of the new configuration whose path was no
  -- AutoDJ's and no relay's is registered: a mount that was there keeps its codec, its source and its
  -- bus and gets the new password, limit and metadata, and else it is made anew.
  pub plain-apply_config :
      (p : Text) (c : MountConfig) (cfg : Config) (s : Server A) (ws : List Text)
      → (apply_config cfg s).1 ≡ warned ws
      → Distinct (all_paths cfg)
      → find_plain_mount p cfg.mounts ≡ some c
      → contains p (paths autodj s.config.autodjs) ≡ false
      → contains p (paths relay s.config.relays) ≡ false
      → lookup p (apply_config cfg s).0.mounts
        ≡ some (kept_or_made cfg.limits c (lookup p s.mounts))
  unfolding mount_next plain_next
  plain-apply_config p c cfg s ws done d here no_dj no_relay =
      let (fine, on) = apply_config-whole cfg s ws done in
      let to = mounts-apply_diffs p cfg (A.reload cfg s.auth).0 s d on in
      let (dj, rel) = Distinct-apart p c cfg d here in
      let is = contains-find_plain_mount p cfg.mounts in
      ground (
        arith,
        to,
        here,
        no_dj,
        no_relay,
        is,
        apply_config-fine cfg s fine,
        dj,
        rel,
        absent-find autodj p s.config.autodjs,
        absent-find relay p s.config.relays,
        absent-find autodj p cfg.autodjs,
        absent-find relay p cfg.relays,
      )

  -- After a reload that is applied to the end, no mount is registered at a path that was an AutoDJ's or a
  -- relay's and that the new configuration has as a plain mount.
  pub moved-apply_config :
      (p : Text) (c : MountConfig) (cfg : Config) (s : Server A) (ws : List Text)
      → (apply_config cfg s).1 ≡ warned ws
      → Distinct (all_paths cfg)
      → find_plain_mount p cfg.mounts ≡ some c
      → (contains p (paths autodj s.config.autodjs) ≡ true)
        ⊎ (contains p (paths relay s.config.relays) ≡ true)
      → lookup p (apply_config cfg s).0.mounts ≡ none
  unfolding mount_next
  moved-apply_config p c cfg s ws done d here was =
      let (fine, on) = apply_config-whole cfg s ws done in
      let to = mounts-apply_diffs p cfg (A.reload cfg s.auth).0 s d on in
      let (dj, rel) = Distinct-apart p c cfg d here in
      let is_dj = contains-find autodj p s.config.autodjs in
      let is_relay = contains-find relay p s.config.relays in
      let start = apply_config-fine cfg s fine in
      let no_dj = absent-find autodj p cfg.autodjs dj in
      let no_relay = absent-find relay p cfg.relays rel in
      elim was [
        | inl there ↦ elim (Option-cases (find autodj p s.config.autodjs)) [
          | inl e ↦ absurd (ground (arith, is_dj, there, e))
          | inr (o, e) ↦ elim (Option-cases (find relay p s.config.relays)) [
            | inl f ↦ ground (arith, to, start, no_dj, no_relay, e, f)
            | inr (r, f) ↦ ground (arith, to, start, no_dj, no_relay, e, f)
          ]
        ]
        | inr there ↦ elim (Option-cases (find relay p s.config.relays)) [
          | inl e ↦ absurd (ground (arith, is_relay, there, e))
          | inr (o, e) ↦ ground (arith, to, start, no_relay, e)
        ]
      ]
