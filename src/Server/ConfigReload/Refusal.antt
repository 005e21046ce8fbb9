-- ===== src/Server/ConfigReload/Refusal.antt =====
-- crates/rustyice-server/src/config_reload.rs: a configuration is taken as a whole or not at all.
use rusty_ice.Prelude.{
  ◌≡◌, ◌≢◌, ◌⊎◌, refl, sym, subst, inl, inr, Option, none, some, false, arith, Option-cases,
  Bool-cases,
}
use rusty_ice.Core.Config.{Config, validate_paths}
use rusty_ice.Auth.{TomlBcryptAuth, reload}
use rusty_ice.Server.ConfigReload.Apply.{
  AuthBackend, Server, halted, relay_stage, apply_diffs, apply_config, load, reload_from_disk,
}
use rusty_ice.Server.Bus.{has_capacity}
use rusty_ice.Server.ConfigReload.Capacity.{relay_stage-fits}
use rusty_ice.Server.ConfigReload.Synced.{
  apply_config-fine, apply_config-failed, reload-valid, reload-invalid,
}

-- The backend of the server reports no error.
abbrev pub toml_backend : AuthBackend
toml_backend = record { State = TomlBcryptAuth; reload = λ cfg a. (reload cfg a, none) }

module _ {A : AuthBackend} where
  -- The mounts, the tasks and the configuration of a server, without its backend.
  abbrev pub IsUnchanged : Server A → Server A → Type 0
  IsUnchanged s s' = record s' { auth = s.auth } ≡ s

  abbrev pub IsTaken : Option Config → Server A → Server A → Type 0
  IsTaken parsed s s' =
      (cfg : Config) × (parsed ≡ some cfg)
      × (validate_paths cfg ≡ none)
      × ((A.reload cfg s.auth).1 ≡ none)
      × (s'.config ≡ cfg)

  -- The file's valid configuration has a `ring_size` that no bus can be made with.
  abbrev pub IsHalted : Option Config → Server A → Server A → Type 0
  IsHalted parsed s s' =
      (cfg : Config) × (parsed ≡ some cfg)
      × (validate_paths cfg ≡ none)
      × ((apply_config cfg s).1 ≡ halted)
      × (has_capacity cfg.limits.ring_size ≡ false)
      × (s'.config ≡ s.config)

  -- The file cannot be read, or its configuration is not valid, or the backend fails on it.
  abbrev pub IsRefused : Option Config → Server A → Type 0
  IsRefused parsed s =
      (parsed ≡ none)
      ⊎ ((cfg : Config) × (parsed ≡ some cfg)
          × ((validate_paths cfg ≢ none) ⊎ ((A.reload cfg s.auth).1 ≢ none)))

  -- On a SIGHUP, either the file cannot be read, its configuration is not valid or the backend fails on
  -- it, and the configuration in force, the mounts and the running tasks are left as they were; or the
  -- file holds a valid configuration, the backend took it, and it is then the one in force; or it holds
  -- a valid configuration whose `ring_size` is 0 or more than a channel takes, applying it panics, and
  -- the configuration in force is the old one.
  pub reload_from_disk-IsTaken :
      (parsed : Option Config) (s : Server A)
      → (IsRefused parsed s × IsUnchanged s (reload_from_disk parsed s))
        ⊎ (IsTaken parsed s (reload_from_disk parsed s)
            ⊎ IsHalted parsed s (reload_from_disk parsed s))
  unfolding reload_from_disk load apply_diffs apply_config
  reload_from_disk-IsTaken none s = inl (inl refl, refl)
  reload_from_disk-IsTaken (some cfg) s = elim (Option-cases (validate_paths cfg)) [
    | inr (e, bad) ↦ inl (
      inr (cfg, refl, inl (λ ok. cc)),
      subst (IsUnchanged s) (sym (reload-invalid cfg s e bad)) refl,
    )
    | inl valid ↦ elim (Option-cases (A.reload cfg s.auth).1) [
      | inr (e, failed) ↦ inl (
        inr (cfg, refl, inr (λ ok. cc)),
        subst (IsUnchanged s) (sym (reload-valid cfg s valid))
            (subst (λ x. IsUnchanged s x.0) (sym (apply_config-failed cfg s e failed)) refl),
      )
      | inl fine ↦ elim (Bool-cases (relay_stage cfg s).halted) [
        | inr on ↦ inr (
            inl (
              cfg,
              refl,
              valid,
              fine,
              ground (arith, on, reload-valid cfg s valid, apply_config-fine cfg s fine),
            ))
        | inl stops ↦ inr (
            inr (
              cfg,
              refl,
              valid,
              ground (arith, fine, stops),
              ground (arith, stops, relay_stage-fits cfg s),
              ground (arith, stops, reload-valid cfg s valid, apply_config-fine cfg s fine),
            ))
      ]
    ]
  ]
