-- ===== src/Server/ConfigReload/Follow.antt =====
-- crates/rustyice-server/src/config_reload.rs: one path followed through the diff of a kind of task.
use rusty_ice.Prelude.{
  ◌≡◌, refl, inl, inr, false, not, ◌&&◌, Option, none, some, List, [], ◌∷◌, arith, Dict, lookup,
  lookup-insert, lookup-erase, bytes_eq, bytes_eq_iff, bytes_eq_refl, Bool-cases, Option-cases,
  if◌then◌else◌,
}
use rusty_ice.Core.Mount.{Text, new}
use rusty_ice.Core.Config.{LimitsConfig, contains}
use rusty_ice.Core.Mount.Registry.{Mount, add, remove, get}
use rusty_ice.Server.ConfigReload.Registry.{Entry, Stage, insert_task, cancel_task}
use rusty_ice.Server.ConfigReload.Diff.{
  TaskKind, find, paths, fresh_mount, refresh, drop_entry, remove_gone, needs_respawn, ensure_mount,
  spawn, respawn, swap_info, apply_entry,
}

unfoldable pub cfg_at : {C : Type 0} → Text → Dict (Entry C) → Option C
cfg_at p d = elim (lookup p d) [ none ↦ none | some e ↦ some e.cfg ]

module _ {C : Type 0} where
  cfg_at-cancel_task :
      (p q : Text) (st : Stage C)
      → cfg_at p (cancel_task q st).running ≡ (if bytes_eq p q then none else cfg_at p st.running)
  unfolding cfg_at cancel_task
  cfg_at-cancel_task p q st = elim (Option-cases (lookup q st.running)) [
    | inl gone ↦ ground (arith, gone, bytes_eq_iff p q)
    | inr (e, here) ↦ ground (arith, here, lookup-erase p q st.running)
  ]

  pub mounts-cancel_task : (q : Text) (st : Stage C) → (cancel_task q st).mounts ≡ st.mounts
  unfolding cancel_task
  mounts-cancel_task q st = elim (Option-cases (lookup q st.running)) [
    | inl gone ↦ ground (arith, gone)
    | inr (e, here) ↦ ground (arith, here)
  ]

module _ {C : Type 0} (k : TaskKind C) where
  unfoldable pub or_fresh : LimitsConfig → C → Option Mount → Mount
  or_fresh limits c none = fresh_mount k limits c
  or_fresh limits c (some m) = m

  pub absent-find : (p : Text) (cs : List C) → contains p (paths k cs) ≡ false → find k p cs ≡ none
  unfolding find paths contains
  absent-find p [] h = refl
  absent-find p (c ∷ cs) h = ground (arith, h, absent-find p cs)

  pub find-contains :
      (p : Text) (cs : List C) → find k p cs ≡ none → contains p (paths k cs) ≡ false
  unfolding find paths contains
  find-contains p [] h = refl
  find-contains p (c ∷ cs) h = ground (arith, h, find-contains p cs)

  pub cfg_at-remove_gone :
      (p : Text) (news : List Text) (olds : List C) (st : Stage C)
      → cfg_at p (remove_gone k news olds st).running
        ≡ (if contains p (paths k olds) && not (contains p news) then none else cfg_at p st.running)
  unfolding remove_gone drop_entry contains paths
  cfg_at-remove_gone p news [] st = refl
  cfg_at-remove_gone p news (o ∷ os) st = elim (Bool-cases (contains (k.mount o) news)) [
    | inl kept ↦ ground (arith, kept, cfg_at-remove_gone p news os st, bytes_eq_iff p (k.mount o))
    | inr gone ↦ ground (
      arith,
      gone,
      cfg_at-remove_gone p news os (drop_entry k o st),
      cfg_at-cancel_task p (k.mount o) st,
      bytes_eq_iff p (k.mount o),
    )
  ]

  pub mounts-remove_gone :
      (p : Text) (news : List Text) (olds : List C) (st : Stage C)
      → lookup p (remove_gone k news olds st).mounts
        ≡ (if contains p (paths k olds) && not (contains p news) then none else lookup p st.mounts)
  unfolding remove_gone drop_entry contains paths remove
  mounts-remove_gone p news [] st = refl
  mounts-remove_gone p news (o ∷ os) st = elim (Bool-cases (contains (k.mount o) news)) [
    | inl kept ↦ ground (arith, kept, mounts-remove_gone p news os st, bytes_eq_iff p (k.mount o))
    | inr gone ↦ ground (
      arith,
      gone,
      mounts-remove_gone p news os (drop_entry k o st),
      mounts-cancel_task (k.mount o) st,
      lookup-erase p (k.mount o) st.mounts,
      bytes_eq_iff p (k.mount o),
    )
  ]

  pub lookup-add :
      (p : Text) (limits : LimitsConfig) (c : C) (d : Dict Mount)
      → lookup p (add (fresh_mount k limits c) d)
        ≡ (if bytes_eq p (k.mount c) then some (fresh_mount k limits c) else lookup p d)
  unfolding add fresh_mount new
  lookup-add p limits c d = lookup-insert p (k.mount c) (fresh_mount k limits c) d

  mounts-ensure_mount :
      (p : Text) (limits : LimitsConfig) (c : C) (st : Stage C)
      → (ensure_mount k limits c st).halted ≡ false
      → lookup p (ensure_mount k limits c st).mounts ≡ (
          if bytes_eq p (k.mount c)
          then some (or_fresh limits c (lookup (k.mount c) st.mounts))
          else lookup p st.mounts)
  unfolding ensure_mount or_fresh get
  mounts-ensure_mount p limits c st on = elim (Option-cases (lookup (k.mount c) st.mounts)) [
    | inl gone ↦ ground (arith, gone, on, lookup-add p limits c st.mounts)
    | inr (m, here) ↦ ground (arith, here, bytes_eq_iff p (k.mount c))
  ]

  running-ensure_mount :
      (limits : LimitsConfig) (c : C) (st : Stage C)
      → (ensure_mount k limits c st).running ≡ st.running
  unfolding ensure_mount get
  running-ensure_mount limits c st = elim (Option-cases (lookup (k.mount c) st.mounts)) [
    | inl gone ↦ ground (arith, gone)
    | inr (m, here) ↦ ground (arith, here)
  ]

  cfg_at-spawn :
      (p : Text) (c : C) (m : Mount) (st : Stage C)
      → lookup (k.mount c) st.mounts ≡ some m
      → cfg_at p (spawn k c st).running
        ≡ (if bytes_eq p (k.mount c) then some c else cfg_at p st.running)
  unfolding spawn get insert_task cfg_at
  cfg_at-spawn p c m st here = ground (
    arith,
    here,
    lookup-insert p (k.mount c) (record { cfg = c; cancel = st.next_token }) st.running,
  )

  pub halted-spawn : (c : C) (st : Stage C) → (spawn k c st).halted ≡ st.halted
  unfolding spawn get insert_task
  halted-spawn c st = elim (Option-cases (lookup (k.mount c) st.mounts)) [
    | inl gone ↦ ground (arith, gone)
    | inr (m, here) ↦ ground (arith, here)
  ]

  pub mounts-spawn : (c : C) (st : Stage C) → (spawn k c st).mounts ≡ st.mounts
  unfolding spawn get insert_task
  mounts-spawn c st = elim (Option-cases (lookup (k.mount c) st.mounts)) [
    | inl gone ↦ ground (arith, gone)
    | inr (m, here) ↦ ground (arith, here)
  ]

  -- The configuration that an entry runs with after its step of the diff, and the mount at its path.
  unfoldable pub cfg_after : List C → C → Option C → Option C
  cfg_after olds c old =
      if needs_respawn k olds c then (if k.enabled c then some c else none) else old

  unfoldable pub refreshed : C → Option Mount → Option Mount
  refreshed c none = none
  refreshed c (some m) = some (refresh k c m)

  unfoldable pub mount_after : LimitsConfig → List C → C → Option Mount → Option Mount
  mount_after limits olds c old =
      if needs_respawn k olds c then some (or_fresh limits c old) else refreshed c old

  -- A respawn that ends well has its mount.
  halted-respawn :
      (limits : LimitsConfig) (c : C) (st : Stage C)
      → (respawn k limits c st).halted ≡ false
      → (ensure_mount k limits c (cancel_task (k.mount c) st)).halted ≡ false
  unfolding respawn
  halted-respawn limits c st on =
      ground (arith, on, halted-spawn c (ensure_mount k limits c (cancel_task (k.mount c) st)))

  cfg_at-respawn :
      (p : Text) (limits : LimitsConfig) (c : C) (st : Stage C)
      → (respawn k limits c st).halted ≡ false
      → cfg_at p (respawn k limits c st).running ≡ (
          if bytes_eq p (k.mount c)
          then (if k.enabled c then some c else none)
          else cfg_at p st.running)
  unfolding respawn
  cfg_at-respawn p limits c st on =
      let cancelled = cancel_task (k.mount c) st in
      let ready = ensure_mount k limits c cancelled in
      let whole = halted-respawn limits c st on in
      let there = mounts-ensure_mount (k.mount c) limits c cancelled whole in
      let m = or_fresh limits c (lookup (k.mount c) cancelled.mounts) in
      let before = cfg_at-cancel_task p (k.mount c) st in
      let same = running-ensure_mount limits c cancelled in
      let here : lookup (k.mount c) ready.mounts ≡ some m =
        ground (arith, there, bytes_eq_refl (k.mount c)) in
      ground (arith, whole, before, same, cfg_at-spawn p c m ready here)

  mounts-respawn :
      (p : Text) (limits : LimitsConfig) (c : C) (st : Stage C)
      → (respawn k limits c st).halted ≡ false
      → lookup p (respawn k limits c st).mounts ≡ (
          if bytes_eq p (k.mount c)
          then some (or_fresh limits c (lookup (k.mount c) st.mounts))
          else lookup p st.mounts)
  unfolding respawn
  mounts-respawn p limits c st on =
      let cancelled = cancel_task (k.mount c) st in
      let whole = halted-respawn limits c st on in
      ground (
        arith,
        whole,
        mounts-ensure_mount p limits c cancelled whole,
        mounts-cancel_task (k.mount c) st,
        mounts-spawn c (ensure_mount k limits c cancelled),
      )

  pub cfg_at-apply_entry :
      (p : Text) (limits : LimitsConfig) (olds : List C) (c : C) (st : Stage C)
      → (apply_entry k limits olds c st).halted ≡ false
      → cfg_at p (apply_entry k limits olds c st).running ≡ (
          if bytes_eq p (k.mount c)
          then cfg_after olds c (cfg_at p st.running)
          else cfg_at p st.running)
  unfolding apply_entry swap_info get cfg_after
  cfg_at-apply_entry p limits olds c st on = elim (Bool-cases (needs_respawn k olds c)) [
    | inl due ↦ ground (arith, due, cfg_at-respawn p limits c st (ground (arith, due, on)))
    | inr not_due ↦ ground (arith, not_due)
  ]

  pub mounts-apply_entry :
      (p : Text) (limits : LimitsConfig) (olds : List C) (c : C) (st : Stage C)
      → (apply_entry k limits olds c st).halted ≡ false
      → lookup p (apply_entry k limits olds c st).mounts ≡ (
          if bytes_eq p (k.mount c)
          then mount_after limits olds c (lookup p st.mounts)
          else lookup p st.mounts)
  unfolding apply_entry swap_info get mount_after refreshed
  mounts-apply_entry p limits olds c st on = elim (Bool-cases (needs_respawn k olds c)) [
    | inl due ↦ ground (
      arith,
      due,
      mounts-respawn p limits c st (ground (arith, due, on)),
      bytes_eq_iff p (k.mount c),
    )
    | inr not_due ↦ elim (Option-cases (lookup (k.mount c) st.mounts)) [
      | inl gone ↦ ground (arith, not_due, gone, bytes_eq_iff p (k.mount c))
      | inr (m, here) ↦ ground (
        arith,
        not_due,
        here,
        bytes_eq_iff p (k.mount c),
        lookup-insert p (k.mount c) (refresh k c m) st.mounts,
      )
    ]
  ]
