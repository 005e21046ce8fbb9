-- ===== src/Admin/ConfigWrite.antt =====
-- crates/rustyice-admin/src/config_write.rs: the patches of the sections. Addresses are texts.
pub mod Validate
pub mod Apply
pub mod Accepts
use rusty_ice.Prelude.{ℕ, Bool, Option, List}
use rusty_ice.Core.Mount.{Text}

pub record AuthSubPatch : Type 0 where
  pub source_password : Option Text

pub record ServerSubPatch : Type 0 where
  pub stream_bind : Text
  pub admin_bind : Text
  pub hostname : Text

pub record LoggingSubPatch : Type 0 where
  pub level : Text
  pub format : Text

pub record LimitsSubPatch : Type 0 where
  pub max_listeners_global : ℕ
  pub ring_size : ℕ
  pub slow_listener_grace_s : ℕ
  pub burst_size : ℕ
  pub source_max_kbps : Option ℕ

pub record ServerPatch : Type 0 where
  pub server : ServerSubPatch
  pub logging : LoggingSubPatch
  pub limits : LimitsSubPatch
  pub auth : Option AuthSubPatch

pub record TranscodeSubPatch : Type 0 where
  pub format : Text
  pub sample_rate : ℕ
  pub bitrate_kbps : ℕ

pub record TranscodePatch : Type 0 where
  pub transcode : Option TranscodeSubPatch

pub record MountSubPatch : Type 0 where
  pub path : Text
  pub source_password : Text
  pub max_listeners : Option ℕ
  pub name : Option Text
  pub description : Option Text
  pub genre : Option Text
  pub url : Option Text
  pub burst_size : Option ℕ
  pub transcode : Option TranscodeSubPatch

pub record MountsPatch : Type 0 where
  pub mounts : List MountSubPatch

pub record UserSubPatch : Type 0 where
  pub username : Text
  pub password_bcrypt : Text
  pub role : Text

pub record UsersPatch : Type 0 where
  pub users : List UserSubPatch

pub record AutoDjSubPatch : Type 0 where
  pub mount : Text
  pub folder : Text
  pub enabled : Bool
  pub loop_playlist : Bool
  pub order : Text
  pub name : Option Text
  pub description : Option Text
  pub genre : Option Text
  pub url : Option Text
  pub max_listeners : Option ℕ
  pub burst_size : Option ℕ
  pub transcode : TranscodeSubPatch

pub record AutoDjsPatch : Type 0 where
  pub autodjs : List AutoDjSubPatch

pub record RelaySubPatch : Type 0 where
  pub mount : Text
  pub upstream : Text
  pub enabled : Bool
  pub name : Option Text
  pub description : Option Text
  pub genre : Option Text
  pub url : Option Text
  pub username : Option Text
  pub password : Option Text
  pub max_listeners : Option ℕ
  pub burst_size : Option ℕ
  pub transcode : Option TranscodeSubPatch

pub record RelaysPatch : Type 0 where
  pub relays : List RelaySubPatch

-- `WriteError::Validate`, the only error of the validators.
pub record WriteError : Type 0 where
  pub field : Text
  pub message : Text
