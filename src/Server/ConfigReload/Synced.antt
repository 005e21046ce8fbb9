-- ===== src/Server/ConfigReload/Synced.antt =====
-- crates/rustyice-server/src/config_reload.rs: the tasks that are registered are those of the
-- configuration in force, through any reload from disk.
use rusty_ice.Prelude.{
  ◌≡◌, ◌≢◌, refl, sym, subst, inl, inr, true, false, ◌||◌, Option, none, some, List, [], ◌∷◌, ◌++◌,
  map, arith, bytes_eq, bytes_eq_iff, Bool-cases, Option-cases,
}
use rusty_ice.Core.Mount.{Text}
use rusty_ice.Core.Config.{Config, MountConfig, PathError, contains, validate_paths}
use rusty_ice.Core.Config.Paths.{Distinct, all_paths, validate_paths-none}
use rusty_ice.Core.Config.Plain.{find_plain_mount, contains-find_plain_mount}
use rusty_ice.Server.ConfigReload.Diff.{paths, diff}
use rusty_ice.Server.ConfigReload.Kinds.{autodj, relay}
use rusty_ice.Server.ConfigReload.Apply.{
  AuthBackend, Server, warned, auth_failed, halted, apply_config, apply_diffs, plain_stage,
  autodj_stage, relay_start, relay_stage, load, reload_from_disk,
}
use rusty_ice.Server.ConfigReload.Outcome.{Matches, diff-Matches}
use rusty_ice.Server.ConfigReload.Laws.{autodj-DiffersLaws, relay-DiffersLaws}

pub contains-append :
    (x : Text) (xs ys : List Text) → contains x (xs ++ ys) ≡ contains x xs || contains x ys
unfolding contains
contains-append x [] ys = refl
contains-append x (z ∷ xs) ys = ground (arith, contains-append x xs ys)

pub Distinct-append : (xs ys : List Text) → Distinct (xs ++ ys) → Distinct xs × Distinct ys
Distinct-append [] ys h = (tt, h)
Distinct-append (x ∷ xs) ys (a, h) =
    let (d, e) = Distinct-append xs ys h in ((ground (arith, a, contains-append x xs ys), d), e)

contains-apart :
    (x : Text) (xs ys : List Text)
    → Distinct (xs ++ ys)
    → contains x xs ≡ true
    → contains x ys ≡ false
unfolding contains
contains-apart x [] ys d h = cc
contains-apart x (z ∷ xs) ys (a, d) h = elim (Bool-cases (bytes_eq x z)) [
  | inl same ↦ rw ((bytes_eq_iff x z).0 same) (ground (arith, a, contains-append z xs ys))
  | inr other ↦ contains-apart x xs ys d (ground (arith, other, h))
]

-- The path of a plain mount is no AutoDJ's and no relay's.
pub Distinct-apart :
    (p : Text) (c : MountConfig) (cfg : Config)
    → Distinct (all_paths cfg)
    → find_plain_mount p cfg.mounts ≡ some c
    → (contains p (paths autodj cfg.autodjs) ≡ false)
      × (contains p (paths relay cfg.relays) ≡ false)
unfolding paths autodj relay
Distinct-apart p c cfg d here =
    let plain = map (λ m. m.path) cfg.mounts in
    let djs = map (λ a. a.mount) cfg.autodjs in
    let relays = map (λ r. r.mount) cfg.relays in
    let is : contains p plain ≡ true =
      ground (arith, here, contains-find_plain_mount p cfg.mounts) in
    let no = contains-apart p plain (djs ++ relays) d is in
    let parts = contains-append p djs relays in
    (ground (arith, no, parts), ground (arith, no, parts))

-- The paths of the three sections are each without a repetition.
pub sections-Distinct :
    (cfg : Config)
    → Distinct (all_paths cfg)
    → Distinct (map (λ m. m.path) cfg.mounts)
      × Distinct (paths autodj cfg.autodjs)
      × Distinct (paths relay cfg.relays)
unfolding paths autodj relay
sections-Distinct cfg h =
    let plain = map (λ m. m.path) cfg.mounts in
    let djs = map (λ a. a.mount) cfg.autodjs in
    let relays = map (λ r. r.mount) cfg.relays in
    let (a, rest) = Distinct-append plain (djs ++ relays) h in
    let (b, c) = Distinct-append djs relays rest in (a, b, c)

pub load-valid : (cfg : Config) → validate_paths cfg ≡ none → load (some cfg) ≡ some cfg
unfolding load
load-valid cfg h = ground (arith, h)

module _ {A : AuthBackend} where
  abbrev pub IsSynced : Server A → Type 0
  IsSynced s = Matches autodj s.config.autodjs s.autodjs × Matches relay s.config.relays s.relays

  -- Where a stage did not panic, neither did the ones before it, and its diff was made.
  pub autodj_stage-whole :
      (cfg : Config) (s : Server A)
      → (autodj_stage cfg s).halted ≡ false
      → ((plain_stage cfg s).halted ≡ false)
        × (autodj_stage cfg s
            ≡ diff autodj cfg.limits s.config.autodjs cfg.autodjs (plain_stage cfg s))
  unfolding autodj_stage
  autodj_stage-whole cfg s on = (ground (arith, on), ground (arith, on))

  pub relay_stage-whole :
      (cfg : Config) (s : Server A)
      → (relay_stage cfg s).halted ≡ false
      → ((diff relay cfg.limits s.config.relays cfg.relays (relay_start cfg s)).halted ≡ false)
        × ((autodj_stage cfg s).halted ≡ false)
        × (relay_stage cfg s ≡ diff relay cfg.limits s.config.relays cfg.relays (relay_start cfg s))
  unfolding relay_stage relay_start
  relay_stage-whole cfg s on = (ground (arith, on), ground (arith, on), ground (arith, on))

  pub apply_config-fine :
      (cfg : Config) (s : Server A)
      → (A.reload cfg s.auth).1 ≡ none
      → (apply_config cfg s).0 ≡ apply_diffs cfg (A.reload cfg s.auth).0 s
  unfolding apply_config
  apply_config-fine cfg s h = ground (arith, h)

  pub apply_config-failed :
      (cfg : Config) (s : Server A) (e : Text)
      → (A.reload cfg s.auth).1 ≡ some e
      → apply_config cfg s ≡ (record s { auth = (A.reload cfg s.auth).0 }, auth_failed e)
  unfolding apply_config
  apply_config-failed cfg s e h = ground (arith, h)

  -- A configuration that was applied to the end.
  pub apply_config-whole :
      (cfg : Config) (s : Server A) (ws : List Text)
      → (apply_config cfg s).1 ≡ warned ws
      → ((A.reload cfg s.auth).1 ≡ none) × ((relay_stage cfg s).halted ≡ false)
  unfolding apply_config
  apply_config-whole cfg s ws h = elim (Option-cases (A.reload cfg s.auth).1) [
    | inr (e, failed) ↦ absurd (ground (arith, failed, h))
    | inl fine ↦ (fine, ground (arith, fine, h))
  ]

  not_halted :
      (cfg : Config) (s : Server A)
      → (A.reload cfg s.auth).1 ≡ none
      → (apply_config cfg s).1 ≢ halted
      → (relay_stage cfg s).halted ≡ false
  unfolding apply_config
  not_halted cfg s fine h = elim (Bool-cases (relay_stage cfg s).halted) [
    | inl stops ↦ absurd (h (ground (arith, fine, stops)))
    | inr on ↦ on
  ]

  apply_diffs-IsSynced :
      (cfg : Config) (auth : AuthBackend.State A) (s : Server A)
      → Distinct (all_paths cfg)
      → (relay_stage cfg s).halted ≡ false
      → IsSynced s
      → IsSynced (apply_diffs cfg auth s)
  unfolding apply_diffs plain_stage relay_start
  apply_diffs-IsSynced cfg auth s d on (djs, relays) =
      let (_, e, f) = sections-Distinct cfg d in
      let (whole, djs_whole, relays_are) = relay_stage-whole cfg s on in
      let (_, djs_are) = autodj_stage-whole cfg s djs_whole in
      let dj_matches =
        diff-Matches autodj autodj-DiffersLaws cfg.limits s.config.autodjs cfg.autodjs
          (plain_stage cfg s) e (ground (arith, djs_are, djs_whole)) djs in
      let relay_matches =
        diff-Matches relay relay-DiffersLaws cfg.limits s.config.relays cfg.relays
          (relay_start cfg s) f whole relays in
      rw on (
        subst (λ st. Matches autodj cfg.autodjs st.running) (sym djs_are) dj_matches,
        subst (λ st. Matches relay cfg.relays st.running) (sym relays_are) relay_matches,
      )

  pub apply_config-IsSynced :
      (cfg : Config) (s : Server A)
      → Distinct (all_paths cfg)
      → (apply_config cfg s).1 ≢ halted
      → IsSynced s
      → IsSynced (apply_config cfg s).0
  apply_config-IsSynced cfg s d whole (djs, relays) = elim (Option-cases (A.reload cfg s.auth).1) [
    | inl fine ↦ subst IsSynced (sym (apply_config-fine cfg s fine)) (
        apply_diffs-IsSynced cfg (A.reload cfg s.auth).0 s d (not_halted cfg s fine whole)
          (djs, relays))
    | inr (error, failed) ↦
        subst (λ x. IsSynced x.0) (sym (apply_config-failed cfg s error failed)) (djs, relays)
  ]

  pub reload-valid :
      (cfg : Config) (s : Server A)
      → validate_paths cfg ≡ none
      → reload_from_disk (some cfg) s ≡ (apply_config cfg s).0
  unfolding reload_from_disk load
  reload-valid cfg s h = ground (arith, h)

  pub reload-invalid :
      (cfg : Config) (s : Server A) (e : PathError)
      → validate_paths cfg ≡ some e
      → reload_from_disk (some cfg) s ≡ s
  unfolding reload_from_disk load
  reload-invalid cfg s e h = ground (arith, h)

  -- Whatever the file holds on a SIGHUP, and whatever the backend answers, unless applying what was
  -- loaded panics: if the registries hold a task for exactly the enabled AutoDJs and relays of the
  -- configuration in force, each spawned with a configuration that agrees with its entry on all that a
  -- respawn is for, then they do afterwards.
  pub reload_from_disk-IsSynced :
      (parsed : Option Config) (s : Server A)
      → ((cfg : Config) → load parsed ≡ some cfg → (apply_config cfg s).1 ≢ halted)
      → IsSynced s
      → IsSynced (reload_from_disk parsed s)
  unfolding reload_from_disk load
  reload_from_disk-IsSynced none s whole h = h
  reload_from_disk-IsSynced (some cfg) s whole h = elim (Option-cases (validate_paths cfg)) [
    | inl valid ↦ subst IsSynced (sym (reload-valid cfg s valid)) (
        apply_config-IsSynced cfg s ((validate_paths-none cfg).0 valid).0
          (whole cfg (load-valid cfg valid)) h)
    | inr (e, bad) ↦ subst IsSynced (sym (reload-invalid cfg s e bad)) h
  ]
