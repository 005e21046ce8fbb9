-- ===== src/Admin/ConfigApi.antt =====
-- crates/rustyice-admin/src/api/config.rs: what a client is shown of the configuration, and the bodies
-- of its changes.
pub mod Candidate
pub mod ReadBack
pub mod Persist
pub mod Synced
pub mod Route
pub mod Secrets
pub mod Echo
pub mod Admins
mod Tests
use rusty_ice.Prelude.{ℕ, Bool, Option, none, some, List, [], map, ascii, if◌then◌else◌}
use rusty_ice.Core.Mount.{Text}
use rusty_ice.Core.Config.{
  Config, ServerConfig, LoggingConfig, AuthConfig, LimitsConfig, MountConfig, AutoDjConfig,
  RelayConfig, TlsConfig, TranscodeConfig, UserConfig,
}

unfoldable pub redacted : Text
redacted = ascii "***"

pub record ConfigResponse : Type 0 where
  pub server : Option ServerConfig
  pub logging : Option LoggingConfig
  pub auth : AuthConfig
  pub limits : Option LimitsConfig
  pub mounts : List MountConfig
  pub autodjs : List AutoDjConfig
  pub relays : List RelayConfig
  pub tls : Option TlsConfig
  pub transcode : Option TranscodeConfig
  pub path : Option Text
  pub source : Text

unfoldable pub redact_option : Option Text → Option Text
redact_option none = none
redact_option (some _) = some redacted

unfoldable pub redact_user : UserConfig → UserConfig
redact_user u = record u { password_bcrypt = redacted }

unfoldable pub redact_mount : MountConfig → MountConfig
redact_mount m = record m { source_password = redacted }

unfoldable pub redact_relay : RelayConfig → RelayConfig
redact_relay r = record r { password = redact_option r.password }

unfoldable pub redact : Config → Config
redact cfg = record cfg {
  auth = record {
    users = map redact_user cfg.auth.users;
    source_password = redact_option cfg.auth.source_password;
  };
  mounts = map redact_mount cfg.mounts;
  relays = map redact_relay cfg.relays;
}

unfoldable pub source_of : Option Text → Text
source_of none = ascii "defaults"
source_of (some _) = ascii "file"

unfoldable pub build_config_response : Config → Option Text → Bool → ConfigResponse
build_config_response cfg config_path is_admin =
    let shown = redact cfg in
    if is_admin
    then record {
      server = some shown.server;
      logging = some shown.logging;
      auth = shown.auth;
      limits = some shown.limits;
      mounts = shown.mounts;
      autodjs = shown.autodjs;
      relays = shown.relays;
      tls = shown.tls;
      transcode = shown.transcode;
      path = config_path;
      source = source_of config_path;
    }
    else record {
      server = none;
      logging = none;
      auth = record { users = []; source_password = none };
      limits = none;
      mounts = shown.mounts;
      autodjs = shown.autodjs;
      relays = shown.relays;
      tls = none;
      transcode = none;
      path = config_path;
      source = source_of config_path;
    }

pub record PutError : Type 0 where
  pub error : Text
  pub field : Option Text
  pub disk_written : Bool

pub record AuthSubBody : Type 0 where
  pub source_password : Option Text

pub record ServerSubBody : Type 0 where
  pub stream_bind : Text
  pub admin_bind : Text
  pub hostname : Text

pub record LoggingSubBody : Type 0 where
  pub level : Text
  pub format : Text

pub record LimitsSubBody : Type 0 where
  pub max_listeners_global : ℕ
  pub ring_size : ℕ
  pub slow_listener_grace_s : ℕ
  pub burst_size : ℕ
  pub source_max_kbps : Option ℕ

pub record ServerPutBody : Type 0 where
  pub server : ServerSubBody
  pub logging : LoggingSubBody
  pub limits : LimitsSubBody
  pub auth : Option AuthSubBody

pub record TranscodeSubBody : Type 0 where
  pub format : Text
  pub sample_rate : ℕ
  pub bitrate_kbps : ℕ

pub record TranscodePutBody : Type 0 where
  pub transcode : Option TranscodeSubBody

pub record MountSubBody : Type 0 where
  pub path : Text
  pub source_password : Option Text
  pub max_listeners : Option ℕ
  pub name : Option Text
  pub description : Option Text
  pub genre : Option Text
  pub url : Option Text
  pub burst_size : Option ℕ
  pub transcode : Option TranscodeSubBody

pub record UserSubBody : Type 0 where
  pub username : Text
  pub password : Option Text
  pub role : Text

pub record AutoDjSubBody : Type 0 where
  pub mount : Text
  pub folder : Text
  pub enabled : Bool
  pub loop_playlist : Bool
  pub order : Text
  pub name : Option Text
  pub description : Option Text
  pub genre : Option Text
  pub url : Option Text
  pub max_listeners : Option ℕ
  pub burst_size : Option ℕ
  pub transcode : TranscodeSubBody

pub record RelaySubBody : Type 0 where
  pub mount : Text
  pub upstream : Text
  pub enabled : Bool
  pub name : Option Text
  pub description : Option Text
  pub genre : Option Text
  pub url : Option Text
  pub username : Option Text
  pub password : Option Text
  pub max_listeners : Option ℕ
  pub burst_size : Option ℕ
  pub transcode : Option TranscodeSubBody
