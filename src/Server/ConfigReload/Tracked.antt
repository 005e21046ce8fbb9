-- ===== src/Server/ConfigReload/Tracked.antt =====
-- crates/rustyice-server/src/config_reload.rs: no task is lost sight of. A token is made for each task.
use rusty_ice.Prelude.{
  ℕ, suc, Bool, true, false, ◌<◌, ◌≡◌, ◌⊎◌, sym, subst, inl, inr, none, some, List, [], ◌∷◌, arith,
  Dict, lookup, insert, erase, lookup-insert, lookup-erase, bytes_eq, bytes_eq_iff, bytes_eq_refl,
  Bool-cases, Option-cases, if◌then◌else◌,
}
use rusty_ice.Core.Mount.{Text}
use rusty_ice.Core.Config.{Config, LimitsConfig, contains}
use rusty_ice.Core.Mount.Registry.{Mount, add, get}
use rusty_ice.Server.Bus.{has_capacity}
use rusty_ice.Server.ConfigReload.Registry.{Entry, Stage, insert_task, cancel_task}
use rusty_ice.Server.ConfigReload.Diff.{
  TaskKind, paths, fresh_mount, refresh, drop_entry, remove_gone, needs_respawn, ensure_mount,
  spawn, respawn, swap_info, apply_entry, apply_entries, diff,
}
use rusty_ice.Server.ConfigReload.Kinds.{autodj, relay}
use rusty_ice.Server.ConfigReload.Apply.{
  AuthBackend, Server, apply_config, apply_diffs, plain_stage, autodj_stage, relay_start,
  relay_stage,
}
use rusty_ice.Server.ConfigReload.Synced.{apply_config-fine, apply_config-failed}

abbrev pub IsIn : ℕ → List ℕ → Type 0
IsIn t [] = ⊥
IsIn t (x ∷ xs) = (t ≡ x) ⊎ IsIn t xs

abbrev pub Runs : {C : Type 0} → ℕ → Dict (Entry C) → Type 0
Runs {C} t d = (p : Text) × (e : Entry C) × (lookup p d ≡ some e) × (e.cancel ≡ t)

-- Each token made so far is cancelled, or its task is registered here or elsewhere.
abbrev Tracks : {C : Type 0} → (ℕ → Type 0) → Stage C → Type 0
Tracks elsewhere st =
    (t : ℕ) → t < st.next_token → IsIn t st.cancelled ⊎ (Runs t st.running ⊎ elsewhere t)

module _ {C : Type 0} where
  cancel_task-none : (q : Text) (st : Stage C) → lookup q st.running ≡ none → cancel_task q st ≡ st
  unfolding cancel_task
  cancel_task-none q st h = ground (arith, h)

  cancel_task-some :
      (q : Text) (e : Entry C) (st : Stage C)
      → lookup q st.running ≡ some e
      → cancel_task q st
        ≡ record st { running = erase q st.running; cancelled = e.cancel ∷ st.cancelled }
  unfolding cancel_task
  cancel_task-some q e st h = ground (arith, h)

  lookup-cancel_task : (q : Text) (st : Stage C) → lookup q (cancel_task q st).running ≡ none
  lookup-cancel_task q st = elim (Option-cases (lookup q st.running)) [
    | inl h ↦ ground (arith, h, cancel_task-none q st)
    | inr (e, h) ↦
        ground (arith, h, cancel_task-some q e st h, lookup-erase q q st.running, bytes_eq_refl q)
  ]

  -- An entry is still there after another was erased, or it was that one.
  Runs-erase :
      (t : ℕ) (q : Text) (e : Entry C) (d : Dict (Entry C))
      → lookup q d ≡ some e
      → Runs t d
      → (t ≡ e.cancel) ⊎ Runs t (erase q d)
  Runs-erase t q e d h (p, f, here, is) = elim (Bool-cases (bytes_eq p q)) [
    | inl same ↦ inl (ground (arith, h, here, is, (bytes_eq_iff p q).0 same))
    | inr other ↦ inr (p, f, ground (arith, here, other, lookup-erase p q d), is)
  ]

  Runs-insert :
      (t : ℕ) (q : Text) (e : Entry C) (d : Dict (Entry C))
      → lookup q d ≡ none
      → Runs t d
      → Runs t (insert q e d)
  Runs-insert t q e d h (p, f, here, is) =
      (p, f, ground (arith, h, here, lookup-insert p q e d, bytes_eq_iff p q), is)

-- What holds in both branches.
if-holds : {X : Type 0} (P : X → Type 0) (b : Bool) (x y : X) → P x → P y → P (if b then x else y)
if-holds P true x y px py = px
if-holds P false x y px py = py

le_or_is : (t n : ℕ) → t < suc n → (t < n) ⊎ (t ≡ n)
le_or_is t n h = omega arith

module _ {C : Type 0} (k : TaskKind C) where
  spawn-none : (c : C) (st : Stage C) → get (k.mount c) st.mounts ≡ none → spawn k c st ≡ st
  unfolding spawn
  spawn-none c st h = ground (arith, h)

  spawn-some :
      (c : C) (m : Mount) (st : Stage C)
      → get (k.mount c) st.mounts ≡ some m
      → spawn k c st ≡ record st {
        running = insert (k.mount c) (record { cfg = c; cancel = st.next_token }) st.running;
        next_token = suc st.next_token;
      }
  unfolding spawn insert_task
  spawn-some c m st h = ground (arith, h)

module _ {C : Type 0} (elsewhere : ℕ → Type 0) where
  cancel_task-Tracks :
      (q : Text) (st : Stage C) → Tracks elsewhere st → Tracks elsewhere (cancel_task q st)
  cancel_task-Tracks q st h = elim (Option-cases (lookup q st.running)) [
    | inl gone ↦ subst (Tracks elsewhere) (sym (cancel_task-none q st gone)) h
    | inr (e, here) ↦ subst (Tracks elsewhere) (sym (cancel_task-some q e st here)) (λ t below.
        elim (h t below) [
          | inl old ↦ inl (inr old)
          | inr (inl runs) ↦ elim (Runs-erase t q e st.running here runs) [
            | inl is ↦ inl (inl is)
            | inr still ↦ inr (inl still)
          ]
          | inr (inr other) ↦ inr (inr other)
        ])
  ]

  spawn-Tracks :
      (k : TaskKind C) (c : C) (st : Stage C)
      → lookup (k.mount c) st.running ≡ none
      → Tracks elsewhere st
      → Tracks elsewhere (spawn k c st)
  spawn-Tracks k c st free h = elim (Option-cases (get (k.mount c) st.mounts)) [
    | inl gone ↦ subst (Tracks elsewhere) (sym (spawn-none k c st gone)) h
    | inr (m, here) ↦
        let e : Entry C = record { cfg = c; cancel = st.next_token } in
        subst (Tracks elsewhere) (sym (spawn-some k c m st here)) (λ t below.
          elim (le_or_is t st.next_token below) [
            | inr is ↦ inr (
                inl (
                  k.mount c,
                  e,
                  ground (
                    arith,
                    lookup-insert (k.mount c) (k.mount c) e st.running,
                    bytes_eq_refl (k.mount c),
                  ),
                  sym is,
                ))
            | inl old ↦ elim (h t old) [
              | inl gone ↦ inl gone
              | inr (inl runs) ↦ inr (inl (Runs-insert t (k.mount c) e st.running free runs))
              | inr (inr other) ↦ inr (inr other)
            ]
          ])
  ]

module _ {C : Type 0} (k : TaskKind C) where
  -- What the steps on the mounts leave alone.
  running-ensure_mount :
      (limits : LimitsConfig) (c : C) (st : Stage C)
      → (d : Dict Mount) × (b : Bool) × (ensure_mount k limits c st
          ≡ record st { mounts = d; halted = b })
  unfolding ensure_mount
  running-ensure_mount limits c st = elim (Option-cases (get (k.mount c) st.mounts)) [
    | inr (m, here) ↦ (st.mounts, st.halted, ground (arith, here))
    | inl gone ↦ elim (Bool-cases (has_capacity limits.ring_size)) [
      | inl fits ↦ (add (fresh_mount k limits c) st.mounts, st.halted, ground (arith, gone, fits))
      | inr no_bus ↦ (st.mounts, true, ground (arith, gone, no_bus))
    ]
  ]

  running-swap_info :
      (c : C) (st : Stage C) → (d : Dict Mount) × (swap_info k c st ≡ record st { mounts = d })
  unfolding swap_info
  running-swap_info c st = elim (Option-cases (get (k.mount c) st.mounts)) [
    | inl gone ↦ (st.mounts, ground (arith, gone))
    | inr (m, here) ↦ (insert (k.mount c) (refresh k c m) st.mounts, ground (arith, here))
  ]

module _ {C : Type 0} (elsewhere : ℕ → Type 0) (k : TaskKind C) where
  respawn-Tracks :
      (limits : LimitsConfig) (c : C) (st : Stage C)
      → Tracks elsewhere st
      → Tracks elsewhere (respawn k limits c st)
  unfolding respawn
  respawn-Tracks limits c st h =
      let st1 = cancel_task (k.mount c) st in
      let (d, b, e) = running-ensure_mount k limits c st1 in
      let ready : Tracks elsewhere (ensure_mount k limits c st1) =
        subst (Tracks elsewhere) (sym e) (cancel_task-Tracks elsewhere (k.mount c) st h) in
      let free : lookup (k.mount c) (ensure_mount k limits c st1).running ≡ none =
        ground (arith, e, lookup-cancel_task (k.mount c) st) in
      let st2 = ensure_mount k limits c st1 in
      if-holds (Tracks elsewhere) st2.halted st2 _ ready (
        if-holds (Tracks elsewhere) (k.enabled c) (spawn k c st2) st2
          (spawn-Tracks elsewhere k c st2 free ready) ready)

  apply_entry-Tracks :
      (limits : LimitsConfig) (olds : List C) (c : C) (st : Stage C)
      → Tracks elsewhere st
      → Tracks elsewhere (apply_entry k limits olds c st)
  unfolding apply_entry
  apply_entry-Tracks limits olds c st h = elim (Bool-cases (needs_respawn k olds c)) [
    | inl due ↦ rw due (respawn-Tracks limits c st h)
    | inr not_due ↦
        let (d, e) = running-swap_info k c st in rw not_due (subst (Tracks elsewhere) (sym e) h)
  ]

  apply_entries-Tracks :
      (limits : LimitsConfig) (olds cs : List C) (st : Stage C)
      → Tracks elsewhere st
      → Tracks elsewhere (apply_entries k limits olds cs st)
  unfolding apply_entries
  apply_entries-Tracks limits olds [] st h = h
  apply_entries-Tracks limits olds (c ∷ cs) st h =
      let now = apply_entry-Tracks limits olds c st h in
      let st' = apply_entry k limits olds c st in
      if-holds (Tracks elsewhere) st'.halted st' _ now (apply_entries-Tracks limits olds cs st' now)

  remove_gone-Tracks :
      (news : List Text) (olds : List C) (st : Stage C)
      → Tracks elsewhere st
      → Tracks elsewhere (remove_gone k news olds st)
  unfolding remove_gone drop_entry
  remove_gone-Tracks news [] st h = h
  remove_gone-Tracks news (o ∷ os) st h =
      remove_gone-Tracks news os (if contains (k.mount o) news then st else drop_entry k o st)
        (elim (Bool-cases (contains (k.mount o) news)) [
          | inl kept ↦ rw kept h
          | inr gone ↦ rw gone (cancel_task-Tracks elsewhere (k.mount o) st h)
        ])

  diff-Tracks :
      (limits : LimitsConfig) (olds news : List C) (st : Stage C)
      → Tracks elsewhere st
      → Tracks elsewhere (diff k limits olds news st)
  unfolding diff
  diff-Tracks limits olds news st h =
      apply_entries-Tracks limits olds news (remove_gone k (paths k news) olds st)
        (remove_gone-Tracks (paths k news) olds st h)

swap : {X Y Z : Type 0} → X ⊎ (Y ⊎ Z) → X ⊎ (Z ⊎ Y)
swap (inl x) = inl x
swap (inr (inl y)) = inr (inr y)
swap (inr (inr z)) = inr (inl z)

module _ {A : AuthBackend} where
  -- Each task ever spawned is cancelled or registered.
  abbrev pub IsTracked : Server A → Type 0
  IsTracked s =
      (t : ℕ) → t < s.next_token → IsIn t s.cancelled ⊎ (Runs t s.autodjs ⊎ Runs t s.relays)

  autodj_stage-Tracks :
      (cfg : Config) (s : Server A)
      → IsTracked s
      → Tracks (λ t. Runs t s.relays) (autodj_stage cfg s)
  unfolding autodj_stage plain_stage
  autodj_stage-Tracks cfg s h =
      if-holds (Tracks (λ t. Runs t s.relays)) (plain_stage cfg s).halted (plain_stage cfg s) _ h (
        diff-Tracks (λ t. Runs t s.relays) autodj cfg.limits s.config.autodjs cfg.autodjs
          (plain_stage cfg s) h)

  relay_stage-Tracks :
      (cfg : Config) (s : Server A)
      → Tracks (λ t. Runs t s.relays) (autodj_stage cfg s)
      → Tracks (λ t. Runs t (autodj_stage cfg s).running) (relay_stage cfg s)
  unfolding relay_stage relay_start
  relay_stage-Tracks cfg s h =
      let elsewhere : ℕ → Type 0 = λ t. Runs t (autodj_stage cfg s).running in
      let ready : Tracks elsewhere (relay_start cfg s) = λ t below. swap (h t below) in
      if-holds (Tracks elsewhere) (relay_start cfg s).halted (relay_start cfg s) _ ready (
        diff-Tracks elsewhere relay cfg.limits s.config.relays cfg.relays (relay_start cfg s) ready)

  apply_diffs-IsTracked :
      (cfg : Config) (auth : AuthBackend.State A) (s : Server A)
      → IsTracked s
      → IsTracked (apply_diffs cfg auth s)
  unfolding apply_diffs
  apply_diffs-IsTracked cfg auth s h t below =
      swap (relay_stage-Tracks cfg s (autodj_stage-Tracks cfg s h) t below)

  -- If each AutoDJ or relay task that was ever spawned is either cancelled or registered, then so it is
  -- after a configuration was applied, whatever it says, whether or not the backend takes it and where
  -- it panics on the way: no task goes on running that the server can no longer stop.
  pub apply_config-IsTracked :
      (cfg : Config) (s : Server A) → IsTracked s → IsTracked (apply_config cfg s).0
  apply_config-IsTracked cfg s h = elim (Option-cases (A.reload cfg s.auth).1) [
    | inl fine ↦
        subst IsTracked (sym (apply_config-fine cfg s fine))
          (apply_diffs-IsTracked cfg (A.reload cfg s.auth).0 s h)
    | inr (e, failed) ↦ subst (λ x. IsTracked x.0) (sym (apply_config-failed cfg s e failed)) h
  ]
