-- ===== src/Server/ConfigReload/Apply.antt =====
-- crates/rustyice-server/src/config_reload.rs: `apply_config` and `do_reload_from_disk`. The
-- authentication backend is the interface `AuthBackend`; what the tasks do meanwhile is no part of a
-- reload.
use rusty_ice.Prelude.{
  ℕ, Bool, true, false, Option, none, some, List, [], ◌∷◌, ◌++◌, map, Dict, insert, bytes_eq, ◌==◌,
  if◌then◌else◌, ascii,
}
use rusty_ice.Core.Types.{CodecId}
use rusty_ice.Core.Mount.{Text, MountMetadata, new}
use rusty_ice.Core.Config.{
  Config, MountConfig, AutoDjConfig, RelayConfig, LimitsConfig, contains, validate_paths,
}
use rusty_ice.Core.Mount.Registry.{Mount, add, remove, get}
use rusty_ice.Server.Bus.{has_capacity}
use rusty_ice.Server.ConfigReload.Registry.{Entry, Stage}
use rusty_ice.Server.ConfigReload.Diff.{or_else, diff}
use rusty_ice.Server.ConfigReload.Kinds.{autodj, relay}

-- `reload` gives the backend's state afterwards, and the error if there was one.
pub record AuthBackend : Type 1 where
  pub State : Type 0
  pub reload : Config → State → State × Option Text

pub record Server (A : AuthBackend) : Type 0 where
  pub config : Config
  pub auth : AuthBackend.State A
  pub mounts : Dict Mount
  pub autodjs : Dict (Entry AutoDjConfig)
  pub relays : Dict (Entry RelayConfig)
  pub cancelled : List ℕ
  pub next_token : ℕ

-- `Result<ApplyOutcome, ApplyError>`, or no result where the task panicked on the way.
pub data Applied : Type 0 where
  warned : List Text → Applied
  auth_failed : Text → Applied
  halted : Applied

-- The fields that the warnings name.
unfoldable pub restart_warnings : Config → Config → List Text
restart_warnings old cfg =
    (if bytes_eq old.server.stream_bind cfg.server.stream_bind
      then []
      else ascii "stream_bind" ∷ [])
    ++ ((if bytes_eq old.server.admin_bind cfg.server.admin_bind
          then []
          else ascii "admin_bind" ∷ [])
        ++ (if old.limits.ring_size == cfg.limits.ring_size then [] else ascii "ring_size" ∷ []))

unfoldable pub metadata_of : MountConfig → MountMetadata
metadata_of m = record { name = m.name; description = m.description; genre = m.genre; url = m.url }

-- A mount that survives keeps its path, its codec and its source.
unfoldable pub update_info : MountConfig → Mount → Mount
update_info c m = record m {
  active = record m.active {
    info = record m.active.info {
      source_password = c.source_password;
      max_listeners = c.max_listeners;
      metadata = metadata_of c;
    };
  };
}

unfoldable pub plain_mount : LimitsConfig → MountConfig → Mount
plain_mount limits c = record {
  active = new (record {
    path = c.path;
    codec = CodecId.mp3;
    source_password = c.source_password;
    max_listeners = c.max_listeners;
    metadata = metadata_of c;
  });
  ring_size = limits.ring_size;
  bus_burst = or_else c.burst_size limits.burst_size;
}

-- The mounts, and whether the bus of a new one could not be made.
unfoldable pub update_mount : LimitsConfig → MountConfig → Dict Mount → Dict Mount × Bool
update_mount limits c mounts = elim (get c.path mounts) [
  | some m ↦ (insert c.path (update_info c m) mounts, false)
  | none ↦
      if has_capacity limits.ring_size
      then (add (plain_mount limits c) mounts, false)
      else (mounts, true)
]

unfoldable pub update_mounts : LimitsConfig → List MountConfig → Dict Mount → Dict Mount × Bool
update_mounts limits [] mounts = (mounts, false)
update_mounts limits (c ∷ cs) mounts =
    let (mounts', panics) = update_mount limits c mounts in
    let rest = update_mounts limits cs mounts' in if panics then (mounts', true) else rest

unfoldable pub remove_mounts : List Text → List MountConfig → Dict Mount → Dict Mount
remove_mounts new_paths [] mounts = mounts
remove_mounts new_paths (old ∷ olds) mounts =
    remove_mounts new_paths olds
      (if contains old.path new_paths then mounts else remove old.path mounts)

-- The file's text as the TOML parser reads it, `none` where it cannot be read or parsed.
unfoldable pub load : Option Config → Option Config
load parsed = elim parsed [
  | none ↦ none
  | some cfg ↦ elim (validate_paths cfg) [ none ↦ some cfg | some _ ↦ none ]
]

module _ {A : AuthBackend} where
  -- The plain mounts, before the AutoDJs are looked at.
  unfoldable pub plain_stage : Config → Server A → Stage AutoDjConfig
  plain_stage cfg s =
      let (mounts, panics) = update_mounts cfg.limits cfg.mounts s.mounts in
      record {
        mounts =
            if panics
            then mounts
            else remove_mounts (map (λ m. m.path) cfg.mounts) s.config.mounts mounts;
        running = s.autodjs;
        cancelled = s.cancelled;
        next_token = s.next_token;
        halted = panics;
      }

  unfoldable pub autodj_stage : Config → Server A → Stage AutoDjConfig
  autodj_stage cfg s =
      let st = plain_stage cfg s in
      let diffed = diff autodj cfg.limits s.config.autodjs cfg.autodjs st in
      if st.halted then st else diffed

  -- What the relays start from.
  unfoldable pub relay_start : Config → Server A → Stage RelayConfig
  relay_start cfg s =
      let djs = autodj_stage cfg s in
      record {
        mounts = djs.mounts;
        running = s.relays;
        cancelled = djs.cancelled;
        next_token = djs.next_token;
        halted = djs.halted;
      }

  unfoldable pub relay_stage : Config → Server A → Stage RelayConfig
  relay_stage cfg s =
      let st = relay_start cfg s in
      let diffed = diff relay cfg.limits s.config.relays cfg.relays st in
      if st.halted then st else diffed

  -- The rest of `apply_config` after the backend has taken the configuration. Where it panics, what was
  -- done so far stays done, and the configuration is not stored.
  unfoldable pub apply_diffs : Config → AuthBackend.State A → Server A → Server A
  apply_diffs cfg auth s =
      let relays = relay_stage cfg s in
      record {
        config = if relays.halted then s.config else cfg;
        auth = auth;
        mounts = relays.mounts;
        autodjs = (autodj_stage cfg s).running;
        relays = relays.running;
        cancelled = relays.cancelled;
        next_token = relays.next_token;
      }

  unfoldable pub apply_config : Config → Server A → Server A × Applied
  apply_config cfg s =
      let (auth, error) = A.reload cfg s.auth in
      elim error [
        | some e ↦ (record s { auth = auth }, auth_failed e)
        | none ↦ (
          apply_diffs cfg auth s,
          if (relay_stage cfg s).halted then halted else warned (restart_warnings s.config cfg),
        )
      ]

  unfoldable pub reload_from_disk : Option Config → Server A → Server A
  reload_from_disk parsed s = elim (load parsed) [ none ↦ s | some cfg ↦ (apply_config cfg s).0 ]
