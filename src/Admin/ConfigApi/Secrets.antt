-- ===== src/Admin/ConfigApi/Secrets.antt =====
-- crates/rustyice-admin/src/api/config.rs: what the responses do not tell.
use rusty_ice.Prelude.{Bool, true, false, ◌≡◌, refl, ap, Option, none, some, List, [], ◌∷◌, map}
use rusty_ice.Core.Mount.{Text}
use rusty_ice.Core.Config.{Config, UserConfig, MountConfig, RelayConfig}
use rusty_ice.Admin.ConfigApi.{
  redact_option, redact_user, redact_mount, redact_relay, redact, build_config_response,
}

module _ (f : Text → Text) where
  abbrev map_option : Option Text → Option Text
  map_option none = none
  map_option (some s) = some (f s)

  abbrev change_user : UserConfig → UserConfig
  change_user u = record u { password_bcrypt = f u.password_bcrypt }

  abbrev change_mount : MountConfig → MountConfig
  change_mount m = record m { source_password = f m.source_password }

  abbrev change_relay : RelayConfig → RelayConfig
  change_relay r = record r { password = map_option r.password }

  -- Another configuration with other hashes and passwords in the same places.
  unfoldable pub change_secrets : Config → Config
  change_secrets cfg = record cfg {
    auth = record {
      users = map change_user cfg.auth.users;
      source_password = map_option cfg.auth.source_password;
    };
    mounts = map change_mount cfg.mounts;
    relays = map change_relay cfg.relays;
  }

  redact_option_lem : (o : Option Text) → redact_option (map_option o) ≡ redact_option o
  unfolding redact_option
  redact_option_lem none = refl
  redact_option_lem (some s) = refl

  redact_users_lem :
      (us : List UserConfig) → map redact_user (map change_user us) ≡ map redact_user us
  unfolding redact_user
  redact_users_lem [] = refl
  redact_users_lem (u ∷ us) = ap (◌∷◌ (redact_user u)) (redact_users_lem us)

  redact_mounts_lem :
      (ms : List MountConfig) → map redact_mount (map change_mount ms) ≡ map redact_mount ms
  unfolding redact_mount
  redact_mounts_lem [] = refl
  redact_mounts_lem (m ∷ ms) = ap (◌∷◌ (redact_mount m)) (redact_mounts_lem ms)

  redact_relays_lem :
      (rs : List RelayConfig) → map redact_relay (map change_relay rs) ≡ map redact_relay rs
  unfolding redact_relay
  redact_relays_lem [] = refl
  redact_relays_lem (r ∷ rs) = rw (redact_option_lem r.password, redact_relays_lem rs) refl

  -- Whatever the hashes of the users and the passwords of the mounts, of the relays and of all sources are
  -- changed to, every client is shown the same; and an operator is shown the same for every other
  -- configuration with these mounts, AutoDJs and relays.
  pub build_config_response-secrets :
      (cfg other : Config) (path : Option Text) (is_admin : Bool)
      → (build_config_response (change_secrets cfg) path is_admin
          ≡ build_config_response cfg path is_admin)
        × (build_config_response
              (record other { mounts = cfg.mounts; autodjs = cfg.autodjs; relays = cfg.relays })
              path
              false
            ≡ build_config_response cfg path false)
  unfolding build_config_response redact change_secrets
  build_config_response-secrets cfg other path true = (
    rw
        (
          redact_users_lem cfg.auth.users,
          redact_option_lem cfg.auth.source_password,
          redact_mounts_lem cfg.mounts,
          redact_relays_lem cfg.relays,
        )
        refl,
    refl,
  )
  build_config_response-secrets cfg other path false =
      (rw (redact_mounts_lem cfg.mounts, redact_relays_lem cfg.relays) refl, refl)
