-- ===== src/Server/ConfigReload/Untouched.antt =====
-- crates/rustyice-server/src/config_reload.rs: a path that a diff does not name, panic or not.
use rusty_ice.Prelude.{
  ◌≡◌, refl, inl, inr, false, ◌∙◌, List, [], ◌∷◌, map, arith, Dict, lookup, erase, lookup-insert,
  lookup-erase, bytes_eq, Option-cases, Bool-cases,
}
use rusty_ice.Core.Mount.{Text}
use rusty_ice.Core.Config.{MountConfig, LimitsConfig, contains}
use rusty_ice.Core.Mount.Registry.{Mount, remove, get}
use rusty_ice.Server.ConfigReload.Registry.{Stage, cancel_task}
use rusty_ice.Server.ConfigReload.Diff.{
  TaskKind, paths, refresh, remove_gone, ensure_mount, respawn, swap_info, apply_entry,
  apply_entries, diff,
}
use rusty_ice.Server.ConfigReload.Follow.{
  mounts-cancel_task, mounts-spawn, mounts-remove_gone, lookup-add,
}
use rusty_ice.Server.ConfigReload.Apply.{update_info, update_mount, update_mounts, remove_mounts}
use rusty_ice.Server.ConfigReload.Mounts.{lookup-add_plain}

module _ (p : Text) where
  pub update_mounts-absent :
      (limits : LimitsConfig) (cs : List MountConfig) (d : Dict Mount)
      → contains p (map (λ m. m.path) cs) ≡ false
      → lookup p (update_mounts limits cs d).0 ≡ lookup p d
  unfolding update_mounts update_mount contains
  update_mounts-absent limits [] d h = refl
  update_mounts-absent limits (c ∷ cs) d h =
      let rest = update_mounts-absent limits cs (update_mount limits c d).0 (ground (arith, h)) in
      elim (Option-cases (get c.path d)) [
        | inl gone ↦ ground (arith, gone, h, rest, lookup-add_plain p limits c d)
        | inr (m, here) ↦ ground (arith, here, h, rest, lookup-insert p c.path (update_info c m) d)
      ]

  pub remove_mounts-absent :
      (news : List Text) (olds : List MountConfig) (d : Dict Mount)
      → contains p (map (λ m. m.path) olds) ≡ false
      → lookup p (remove_mounts news olds d) ≡ lookup p d
  unfolding remove_mounts contains remove
  remove_mounts-absent news [] d h = refl
  remove_mounts-absent news (o ∷ os) d h = elim (Bool-cases (contains o.path news)) [
    | inl kept ↦ ground (arith, kept, h, remove_mounts-absent news os d)
    | inr gone ↦
        ground
          (arith, gone, h, remove_mounts-absent news os (erase o.path d), lookup-erase p o.path d)
  ]

module _ {C : Type 0} (k : TaskKind C) (p : Text) (limits : LimitsConfig) where
  ensure_mount-other :
      (c : C) (st : Stage C)
      → bytes_eq p (k.mount c) ≡ false
      → lookup p (ensure_mount k limits c st).mounts ≡ lookup p st.mounts
  unfolding ensure_mount
  ensure_mount-other c st other = elim (Option-cases (get (k.mount c) st.mounts)) [
    | inl gone ↦ ground (arith, gone, other, lookup-add k p limits c st.mounts)
    | inr (m, here) ↦ ground (arith, here)
  ]

  apply_entry-other :
      (olds : List C) (c : C) (st : Stage C)
      → bytes_eq p (k.mount c) ≡ false
      → lookup p (apply_entry k limits olds c st).mounts ≡ lookup p st.mounts
  unfolding apply_entry respawn swap_info
  apply_entry-other olds c st other =
      let cancelled = cancel_task (k.mount c) st in
      let before = mounts-cancel_task (k.mount c) st in
      let same = ensure_mount-other c cancelled other in
      let after = mounts-spawn k c (ensure_mount k limits c cancelled) in
      elim (Option-cases (get (k.mount c) st.mounts)) [
        | inl gone ↦ ground (arith, gone, before, same, after)
        | inr (m, here) ↦ ground (
          arith,
          here,
          other,
          before,
          same,
          after,
          lookup-insert p (k.mount c) (refresh k c m) st.mounts,
        )
      ]

  apply_entries-absent :
      (olds cs : List C) (st : Stage C)
      → contains p (paths k cs) ≡ false
      → lookup p (apply_entries k limits olds cs st).mounts ≡ lookup p st.mounts
  unfolding apply_entries paths contains
  apply_entries-absent olds [] st h = refl
  apply_entries-absent olds (c ∷ cs) st h = ground (
    arith,
    h,
    apply_entry-other olds c st (ground (arith, h)),
    apply_entries-absent olds cs (apply_entry k limits olds c st) (ground (arith, h)),
  )

  pub diff-absent :
      (olds news : List C) (st : Stage C)
      → contains p (paths k olds) ≡ false
      → contains p (paths k news) ≡ false
      → lookup p (diff k limits olds news st).mounts ≡ lookup p st.mounts
  unfolding diff
  diff-absent olds news st old new_ =
      apply_entries-absent olds news (remove_gone k (paths k news) olds st) new_
      ∙ ground (arith, old, mounts-remove_gone k p (paths k news) olds st)
