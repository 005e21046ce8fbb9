-- ===== src/Server/ConfigReload/Tests.antt =====
-- Each result on reloads at a concrete server: an AutoDJ runs, a source made a mount of its own.
use rusty_ice.Prelude.{
  ◌≡◌, ◌⊎◌, subst, inl, refl, true, none, some, [], ◌∷◌, ascii, lookup, Dict, arith,
}
use rusty_ice.Core.Config.{
  Config, AutoDjConfig, MountConfig, Order, TranscodeFormat, contains, validate_paths, check_unique,
  check_relays,
}
use rusty_ice.Core.Config.Example.{plain_config, live_mount}
use rusty_ice.Core.Config.Plain.{find_plain_mount}
use rusty_ice.Auth.{new}
use rusty_ice.Core.Mount.Registry.{Mount, get}
use rusty_ice.Server.ConfigReload.Diff.{paths, find}
use rusty_ice.Server.ConfigReload.Follow.{cfg_at}
use rusty_ice.Server.ConfigReload.Kinds.{autodj}
use rusty_ice.Server.ConfigReload.Apply.{
  Server, apply_config, apply_diffs, plain_mount, halted, restart_warnings, load, reload_from_disk,
  restart_warnings, relay_stage, relay_start, autodj_stage, plain_stage, update_mounts,
  update_mount,
}
use rusty_ice.Server.Bus.{has_capacity}
use rusty_ice.Server.ConfigReload.Capacity.{apply_config-fits, apply_config-done}
use rusty_ice.Server.ConfigReload.Mounts.{kept_or_made}
use rusty_ice.Server.ConfigReload.Fate.{
  dynamic-apply_config, plain-apply_config, moved-apply_config,
}
use rusty_ice.Server.ConfigReload.Synced.{IsSynced, reload_from_disk-IsSynced}
use rusty_ice.Server.ConfigReload.Tracked.{IsTracked, apply_config-IsTracked}
use rusty_ice.Server.ConfigReload.Refusal.{
  toml_backend, IsRefused, IsUnchanged, IsTaken, IsHalted, reload_from_disk-IsTaken,
}

abbrev dj : AutoDjConfig
dj = record {
  mount = ascii "/dj";
  folder = ascii "/music";
  name = none;
  description = none;
  genre = none;
  url = none;
  enabled = true;
  loop_playlist = true;
  order = Order.shuffle;
  max_listeners = none;
  burst_size = none;
  transcode = record { format = TranscodeFormat.mp3; sample_rate = 44100; bitrate_kbps = 128 };
}

abbrev with_dj : Config
with_dj = record plain_config { autodjs = dj ∷ [] }

abbrev with_live : Config
with_live = record plain_config { mounts = live_mount ∷ [] }

-- The AutoDJ's path as a plain mount.
abbrev dj_mount : MountConfig
dj_mount = record live_mount { path = ascii "/dj" }

abbrev moved : Config
moved = record plain_config { mounts = dj_mount ∷ [] }

abbrev dynamic : Dict Mount
dynamic = (ascii "/dyn", plain_mount plain_config.limits live_mount) ∷ []

abbrev idle : Server toml_backend
idle = record {
  config = plain_config;
  auth = new plain_config;
  mounts = dynamic;
  autodjs = [];
  relays = [];
  cancelled = [];
  next_token = 0;
}

abbrev started : Server toml_backend
started = record idle {
  config = with_dj;
  mounts = (ascii "/dj", plain_mount plain_config.limits dj_mount) ∷ dynamic;
  autodjs = (ascii "/dj", record { cfg = dj; cancel = 0 }) ∷ [];
  next_token = 1;
}

dynamic-apply_config_example :
    lookup (ascii "/dyn") (apply_config with_live idle).0.mounts ≡ lookup (ascii "/dyn") idle.mounts
unfolding contains
dynamic-apply_config_example = dynamic-apply_config (ascii "/dyn") with_live idle refl refl

plain-apply_config_example :
    lookup (ascii "/live") (apply_config with_live idle).0.mounts
    ≡ some (kept_or_made plain_config.limits live_mount none)
unfolding contains find_plain_mount paths lookup has_capacity
plain-apply_config_example =
    plain-apply_config (ascii "/live") live_mount with_live idle
      (restart_warnings idle.config with_live) (apply_config-done with_live idle refl refl)
      (refl, tt) refl refl refl

small : has_capacity moved.limits.ring_size ≡ true
unfolding has_capacity
small = refl

moved-apply_config_example : lookup (ascii "/dj") (apply_config moved started).0.mounts ≡ none
unfolding contains find_plain_mount paths apply_config apply_diffs autodj
moved-apply_config_example =
    moved-apply_config (ascii "/dj") dj_mount moved started (restart_warnings started.config moved)
      (apply_config-done moved started refl small) (refl, tt) refl (inl refl)

loaded : (cfg : Config) → load (some with_dj) ≡ some cfg → has_capacity cfg.limits.ring_size ≡ true
unfolding load has_capacity validate_paths check_unique contains check_relays
loaded cfg h =
    let same : some with_dj ≡ some cfg = h in
    let is : with_dj ≡ cfg = cc in subst (λ c. has_capacity c.limits.ring_size ≡ true) is refl

reload_from_disk-IsSynced_example : IsSynced (reload_from_disk (some with_dj) idle)
unfolding find cfg_at lookup
reload_from_disk-IsSynced_example =
    reload_from_disk-IsSynced (some with_dj) idle
      (λ cfg h. apply_config-fits cfg idle (loaded cfg h)) (λ _. tt, λ _. tt)

apply_config-IsTracked_example : IsTracked (apply_config with_dj idle).0
apply_config-IsTracked_example =
    apply_config-IsTracked with_dj idle (λ t h. absurd (omega (arith, h)))

reload_from_disk-IsTaken_example :
    (IsRefused (some with_dj) idle × IsUnchanged idle (reload_from_disk (some with_dj) idle))
    ⊎ (IsTaken (some with_dj) idle (reload_from_disk (some with_dj) idle)
        ⊎ IsHalted (some with_dj) idle (reload_from_disk (some with_dj) idle))
reload_from_disk-IsTaken_example = reload_from_disk-IsTaken (some with_dj) idle

abbrev no_ring : Config
no_ring = record with_live { limits = record plain_config.limits { ring_size = 0 } }

-- A new mount without a ring: the reload panics, and the configuration stays the old one.
no_ring_halted : (apply_config no_ring idle).1 ≡ halted
unfolding apply_config relay_stage relay_start autodj_stage plain_stage update_mounts update_mount
    get lookup has_capacity
no_ring_halted = refl
