-- ===== src/Server/ConfigReload/Diff.antt =====
-- crates/rustyice-server/src/config_reload.rs: the diff of one kind of task. The code writes it out
-- for AutoDJs and for relays; here the two share it, and `TaskKind` holds in what they differ.
use rusty_ice.Prelude.{
  ℕ, suc, Bool, true, Option, none, some, List, [], ◌∷◌, map, insert, bytes_eq, if◌then◌else◌,
}
use rusty_ice.Core.Types.{CodecId}
use rusty_ice.Core.Mount.{Text, MountInfo, MountMetadata, new}
use rusty_ice.Core.Config.{LimitsConfig, contains}
use rusty_ice.Core.Mount.Registry.{Mount, add, remove, get}
use rusty_ice.Server.Bus.{has_capacity}
use rusty_ice.Server.ConfigReload.Registry.{Stage, insert_task, cancel_task}

pub record TaskKind (C : Type 0) : Type 0 where
  pub mount : C → Text
  pub enabled : C → Bool
  -- the old and the new entry differ in what only another task can take up
  pub differs : C → C → Bool
  pub codec : C → CodecId
  pub burst_size : C → Option ℕ
  pub max_listeners : C → Option ℕ
  pub metadata : C → MountMetadata

unfoldable pub or_else : Option ℕ → ℕ → ℕ
or_else none n = n
or_else (some m) n = m

module _ {C : Type 0} (k : TaskKind C) where
  unfoldable pub find : Text → List C → Option C
  find path [] = none
  find path (c ∷ cs) = if bytes_eq path (k.mount c) then some c else find path cs

  unfoldable pub paths : List C → List Text
  paths cs = map k.mount cs

  unfoldable pub fresh_mount : LimitsConfig → C → Mount
  fresh_mount limits c = record {
    active = new (record {
      path = k.mount c;
      codec = k.codec c;
      source_password = [];
      max_listeners = k.max_listeners c;
      metadata = k.metadata c;
    });
    ring_size = limits.ring_size;
    bus_burst = or_else (k.burst_size c) limits.burst_size;
  }

  -- The metadata-only update of the mount's `info`.
  unfoldable pub new_info : C → MountInfo → MountInfo
  new_info c old = record old { max_listeners = k.max_listeners c; metadata = k.metadata c }

  unfoldable pub refresh : C → Mount → Mount
  refresh c m = record m { active = record m.active { info = new_info c m.active.info } }

  unfoldable pub drop_entry : C → Stage C → Stage C
  drop_entry old st =
      let st' = cancel_task (k.mount old) st in
      record st' { mounts = remove (k.mount old) st'.mounts }

  -- Removed entries: cancel and drop the mount.
  unfoldable pub remove_gone : List Text → List C → Stage C → Stage C
  remove_gone new_paths [] st = st
  remove_gone new_paths (old ∷ olds) st =
      remove_gone new_paths olds
        (if contains (k.mount old) new_paths then st else drop_entry old st)

  unfoldable pub needs_respawn : List C → C → Bool
  needs_respawn olds c = elim (find (k.mount c) olds) [
    | none ↦ k.enabled c
    | some o ↦ k.differs o c
  ]

  -- The bus of a new mount is made before the mount is registered.
  unfoldable pub ensure_mount : LimitsConfig → C → Stage C → Stage C
  ensure_mount limits c st = elim (get (k.mount c) st.mounts) [
    | none ↦
        if has_capacity limits.ring_size
        then record st { mounts = add (fresh_mount limits c) st.mounts }
        else record st { halted = true }
    | some _ ↦ st
  ]

  -- A task is spawned with a new token on the mount that is registered.
  unfoldable pub spawn : C → Stage C → Stage C
  spawn c st = elim (get (k.mount c) st.mounts) [
    | none ↦ st
    | some _ ↦
        insert_task (k.mount c) (record { cfg = c; cancel = st.next_token })
          (record st { next_token = suc st.next_token })
  ]

  unfoldable pub respawn : LimitsConfig → C → Stage C → Stage C
  respawn limits c st =
      let st' = ensure_mount limits c (cancel_task (k.mount c) st) in
      if st'.halted then st' else if k.enabled c then spawn c st' else st'

  unfoldable pub swap_info : C → Stage C → Stage C
  swap_info c st = elim (get (k.mount c) st.mounts) [
    | none ↦ st
    | some m ↦ record st { mounts = insert (k.mount c) (refresh c m) st.mounts }
  ]

  unfoldable pub apply_entry : LimitsConfig → List C → C → Stage C → Stage C
  apply_entry limits olds c st =
      if needs_respawn olds c then respawn limits c st else swap_info c st

  unfoldable pub apply_entries : LimitsConfig → List C → List C → Stage C → Stage C
  apply_entries limits olds [] st = st
  apply_entries limits olds (c ∷ cs) st =
      let st' = apply_entry limits olds c st in
      let rest = apply_entries limits olds cs st' in if st'.halted then st' else rest

  unfoldable pub diff : LimitsConfig → List C → List C → Stage C → Stage C
  diff limits olds news st = apply_entries limits olds news (remove_gone (paths news) olds st)
