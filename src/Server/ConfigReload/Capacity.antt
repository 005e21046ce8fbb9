-- ===== src/Server/ConfigReload/Capacity.antt =====
-- crates/rustyice-server/src/config_reload.rs: the panics of a reload, which only new buses cause.
use rusty_ice.Prelude.{
  ◌≡◌, ◌≢◌, ◌∙◌, refl, inl, inr, true, false, none, List, [], ◌∷◌, arith, Dict, lookup,
  Option-cases, Bool-cases,
}
use rusty_ice.Core.Mount.{Text}
use rusty_ice.Core.Config.{Config, MountConfig, LimitsConfig, contains}
use rusty_ice.Core.Mount.Registry.{Mount, get}
use rusty_ice.Server.Bus.{has_capacity}
use rusty_ice.Server.ConfigReload.Registry.{Stage, cancel_task}
use rusty_ice.Server.ConfigReload.Diff.{
  TaskKind, paths, drop_entry, remove_gone, ensure_mount, respawn, swap_info, apply_entry,
  apply_entries, diff,
}
use rusty_ice.Server.ConfigReload.Kinds.{autodj, relay}
use rusty_ice.Server.ConfigReload.Follow.{halted-spawn}
use rusty_ice.Server.ConfigReload.Apply.{
  AuthBackend, Server, warned, halted, restart_warnings, update_mount, update_mounts, plain_stage,
  autodj_stage, relay_start, relay_stage, apply_config,
}

halted-cancel_task : {C : Type 0} (q : Text) (st : Stage C) → (cancel_task q st).halted ≡ st.halted
unfolding cancel_task
halted-cancel_task q st = elim (Option-cases (lookup q st.running)) [
  | inl gone ↦ ground (arith, gone)
  | inr (e, here) ↦ ground (arith, here)
]

update_mounts-fits :
    (limits : LimitsConfig) (cs : List MountConfig) (d : Dict Mount)
    → has_capacity limits.ring_size ≡ true
    → (update_mounts limits cs d).1 ≡ false
unfolding update_mounts update_mount
update_mounts-fits limits [] d fits = refl
update_mounts-fits limits (c ∷ cs) d fits =
    let rest = update_mounts-fits limits cs (update_mount limits c d).0 fits in
    elim (Option-cases (get c.path d)) [
      | inl gone ↦ ground (arith, gone, fits, rest)
      | inr (m, here) ↦ ground (arith, here, rest)
    ]

module _ {C : Type 0} (k : TaskKind C) where
  halted-remove_gone :
      (news : List Text) (olds : List C) (st : Stage C)
      → (remove_gone k news olds st).halted ≡ st.halted
  unfolding remove_gone drop_entry
  halted-remove_gone news [] st = refl
  halted-remove_gone news (o ∷ os) st = elim (Bool-cases (contains (k.mount o) news)) [
    | inl kept ↦ ground (arith, kept, halted-remove_gone news os st)
    | inr gone ↦ ground (
      arith,
      gone,
      halted-remove_gone news os (drop_entry k o st),
      halted-cancel_task (k.mount o) st,
    )
  ]

  ensure_mount-fits :
      (limits : LimitsConfig) (c : C) (st : Stage C)
      → has_capacity limits.ring_size ≡ true
      → (ensure_mount k limits c st).halted ≡ st.halted
  unfolding ensure_mount
  ensure_mount-fits limits c st fits = elim (Option-cases (get (k.mount c) st.mounts)) [
    | inl gone ↦ ground (arith, gone, fits)
    | inr (m, here) ↦ ground (arith, here)
  ]

  apply_entry-fits :
      (limits : LimitsConfig) (olds : List C) (c : C) (st : Stage C)
      → has_capacity limits.ring_size ≡ true
      → (apply_entry k limits olds c st).halted ≡ st.halted
  unfolding apply_entry respawn swap_info
  apply_entry-fits limits olds c st fits =
      let cancelled = cancel_task (k.mount c) st in
      elim (Option-cases (get (k.mount c) st.mounts)) [
        | inl gone ↦ ground (
          arith,
          gone,
          halted-cancel_task (k.mount c) st,
          ensure_mount-fits limits c cancelled fits,
          halted-spawn k c (ensure_mount k limits c cancelled),
        )
        | inr (m, here) ↦ ground (
          arith,
          here,
          halted-cancel_task (k.mount c) st,
          ensure_mount-fits limits c cancelled fits,
          halted-spawn k c (ensure_mount k limits c cancelled),
        )
      ]

  apply_entries-fits :
      (limits : LimitsConfig) (olds cs : List C) (st : Stage C)
      → has_capacity limits.ring_size ≡ true
      → (apply_entries k limits olds cs st).halted ≡ st.halted
  unfolding apply_entries
  apply_entries-fits limits olds [] st fits = refl
  apply_entries-fits limits olds (c ∷ cs) st fits = ground (
    arith,
    apply_entries-fits limits olds cs (apply_entry k limits olds c st) fits,
    apply_entry-fits limits olds c st fits,
  )

  diff-fits :
      (limits : LimitsConfig) (olds news : List C) (st : Stage C)
      → has_capacity limits.ring_size ≡ true
      → (diff k limits olds news st).halted ≡ st.halted
  unfolding diff
  diff-fits limits olds news st fits =
      apply_entries-fits limits olds news (remove_gone k (paths k news) olds st) fits
      ∙ halted-remove_gone (paths k news) olds st

module _ {A : AuthBackend} where
  pub relay_stage-fits :
      (cfg : Config) (s : Server A)
      → has_capacity cfg.limits.ring_size ≡ true
      → (relay_stage cfg s).halted ≡ false
  unfolding relay_stage relay_start autodj_stage plain_stage
  relay_stage-fits cfg s fits = ground (
    arith,
    update_mounts-fits cfg.limits cfg.mounts s.mounts fits,
    diff-fits autodj cfg.limits s.config.autodjs cfg.autodjs (plain_stage cfg s) fits,
    diff-fits relay cfg.limits s.config.relays cfg.relays (relay_start cfg s) fits,
  )

  pub apply_config-done :
      (cfg : Config) (s : Server A)
      → (A.reload cfg s.auth).1 ≡ none
      → has_capacity cfg.limits.ring_size ≡ true
      → (apply_config cfg s).1 ≡ warned (restart_warnings s.config cfg)
  unfolding apply_config
  apply_config-done cfg s fine fits = ground (arith, fine, relay_stage-fits cfg s fits)

  pub apply_config-fits :
      (cfg : Config) (s : Server A)
      → has_capacity cfg.limits.ring_size ≡ true
      → (apply_config cfg s).1 ≢ halted
  unfolding apply_config
  apply_config-fits cfg s fits h =
      let on = relay_stage-fits cfg s fits in
      elim (Option-cases (A.reload cfg s.auth).1) [
        | inl fine ↦ ground (arith, fine, on, h)
        | inr (e, failed) ↦ ground (arith, failed, h)
      ]
