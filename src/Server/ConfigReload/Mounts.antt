-- ===== src/Server/ConfigReload/Mounts.antt =====
-- crates/rustyice-server/src/config_reload.rs: one mount followed through a reload.
use rusty_ice.Prelude.{
  ◌≡◌, refl, inl, inr, false, not, ◌&&◌, Option, none, some, List, [], ◌∷◌, map, arith, Dict,
  lookup, erase, lookup-insert, lookup-erase, bytes_eq, bytes_eq_iff, Bool-cases, Option-cases,
  if◌then◌else◌,
}
use rusty_ice.Core.Mount.{Text, new}
use rusty_ice.Core.Config.{Config, MountConfig, LimitsConfig, contains}
use rusty_ice.Core.Config.Paths.{Distinct, all_paths}
use rusty_ice.Core.Config.Plain.{find_plain_mount, absent-find_plain_mount}
use rusty_ice.Core.Mount.Registry.{Mount, add, remove, get}
use rusty_ice.Server.ConfigReload.Diff.{find}
use rusty_ice.Server.ConfigReload.Kinds.{autodj, relay}
use rusty_ice.Server.ConfigReload.Apply.{
  AuthBackend, Server, apply_diffs, plain_stage, relay_start, relay_stage, plain_mount, update_info,
  update_mount, update_mounts, remove_mounts,
}
use rusty_ice.Server.ConfigReload.Outcome.{mount_next, mounts-diff}
use rusty_ice.Server.ConfigReload.Synced.{sections-Distinct, autodj_stage-whole, relay_stage-whole}

-- What the mount loop makes of the mount at a configured path.
unfoldable pub kept_or_made : LimitsConfig → MountConfig → Option Mount → Mount
kept_or_made limits c none = plain_mount limits c
kept_or_made limits c (some m) = update_info c m

unfoldable pub plain_next : LimitsConfig → Option MountConfig → Option Mount → Option Mount
plain_next limits none m = m
plain_next limits (some c) m = some (kept_or_made limits c m)

pub lookup-add_plain :
    (p : Text) (limits : LimitsConfig) (c : MountConfig) (d : Dict Mount)
    → lookup p (add (plain_mount limits c) d)
      ≡ (if bytes_eq p c.path then some (plain_mount limits c) else lookup p d)
unfolding add plain_mount new
lookup-add_plain p limits c d = lookup-insert p c.path (plain_mount limits c) d

lookup-update_mount :
    (p : Text) (limits : LimitsConfig) (c : MountConfig) (d : Dict Mount)
    → (update_mount limits c d).1 ≡ false
    → lookup p (update_mount limits c d).0
      ≡ (if bytes_eq p c.path then some (kept_or_made limits c (lookup p d)) else lookup p d)
unfolding update_mount get kept_or_made
lookup-update_mount p limits c d on = elim (Option-cases (lookup c.path d)) [
  | inl gone ↦ ground (arith, gone, on, lookup-add_plain p limits c d, bytes_eq_iff p c.path)
  | inr (m, here) ↦
      ground (arith, here, lookup-insert p c.path (update_info c m) d, bytes_eq_iff p c.path)
]

-- The loop goes on past a mount only where it did not panic.
panics-update_mounts :
    (limits : LimitsConfig) (c : MountConfig) (cs : List MountConfig) (d : Dict Mount)
    → (update_mounts limits (c ∷ cs) d).1 ≡ false
    → ((update_mount limits c d).1 ≡ false)
      × ((update_mounts limits cs (update_mount limits c d).0).1 ≡ false)
unfolding update_mounts
panics-update_mounts limits c cs d on = (ground (arith, on), ground (arith, on))

lookup-update_mounts :
    (p : Text) (limits : LimitsConfig) (cs : List MountConfig) (d : Dict Mount)
    → Distinct (map (λ m. m.path) cs)
    → (update_mounts limits cs d).1 ≡ false
    → lookup p (update_mounts limits cs d).0
      ≡ plain_next limits (find_plain_mount p cs) (lookup p d)
unfolding update_mounts find_plain_mount plain_next
lookup-update_mounts p limits [] d h on = refl
lookup-update_mounts p limits (c ∷ cs) d (fresh, h) on =
    let (now, later) = panics-update_mounts limits c cs d on in
    let rest = lookup-update_mounts p limits cs (update_mount limits c d).0 h later in
    let here = lookup-update_mount p limits c d now in
    elim (Bool-cases (bytes_eq p c.path)) [
      | inl same ↦
          let gone = absent-find_plain_mount p cs (rw ((bytes_eq_iff p c.path).0 same) fresh) in
          ground (arith, now, same, rest, here, gone)
      | inr other ↦ ground (arith, now, other, rest, here)
    ]

lookup-remove_mounts :
    (p : Text) (news : List Text) (olds : List MountConfig) (d : Dict Mount)
    → lookup p (remove_mounts news olds d)
      ≡ (if contains p (map (λ m. m.path) olds) && not (contains p news) then none else lookup p d)
unfolding remove_mounts contains remove
lookup-remove_mounts p news [] d = refl
lookup-remove_mounts p news (o ∷ os) d = elim (Bool-cases (contains o.path news)) [
  | inl kept ↦ ground (arith, kept, lookup-remove_mounts p news os d, bytes_eq_iff p o.path)
  | inr gone ↦ ground (
    arith,
    gone,
    lookup-remove_mounts p news os (erase o.path d),
    lookup-erase p o.path d,
    bytes_eq_iff p o.path,
  )
]

module _ {A : AuthBackend} where
  pub mounts-apply_diffs :
      (p : Text) (cfg : Config) (auth : AuthBackend.State A) (s : Server A)
      → Distinct (all_paths cfg)
      → (relay_stage cfg s).halted ≡ false
      → lookup p (apply_diffs cfg auth s).mounts
        ≡ mount_next relay cfg.limits (find relay p s.config.relays) (find relay p cfg.relays) (
            mount_next autodj cfg.limits
              (find autodj p s.config.autodjs)
              (find autodj p cfg.autodjs)
              (if contains p (map (λ m. m.path) s.config.mounts)
                  && not (contains p (map (λ m. m.path) cfg.mounts))
                then none
                else plain_next cfg.limits (find_plain_mount p cfg.mounts) (lookup p s.mounts)))
  unfolding apply_diffs relay_start plain_stage
  mounts-apply_diffs p cfg auth s h on =
      let (a, b, c) = sections-Distinct cfg h in
      let kept = (update_mounts cfg.limits cfg.mounts s.mounts).0 in
      let (whole, djs_whole, relays_are) = relay_stage-whole cfg s on in
      let (plain_whole, djs_are) = autodj_stage-whole cfg s djs_whole in
      ground (
        arith,
        relays_are,
        djs_are,
        plain_whole,
        mounts-diff relay p cfg.limits s.config.relays cfg.relays (relay_start cfg s) c whole,
        mounts-diff autodj p cfg.limits s.config.autodjs cfg.autodjs (plain_stage cfg s) b
            (ground (arith, djs_are, djs_whole)),
        lookup-remove_mounts p (map (λ m. m.path) cfg.mounts) s.config.mounts kept,
        lookup-update_mounts p cfg.limits cfg.mounts s.mounts a plain_whole,
      )
