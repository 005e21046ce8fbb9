-- ===== src/Core/Config.antt =====
-- crates/rustyice-core/src/config.rs: the configuration, its per-mount overrides and its validation.
-- Addresses, folders and hashes are texts; the TOML parser and its defaults are not modelled.
pub mod Paths
pub mod Plain
pub mod Read
pub mod Example
mod Tests
use rusty_ice.Prelude.{
  ℕ, Bool, true, false, not, ◌&&◌, ◌||◌, Option, none, some, List, [], ◌∷◌, ◌++◌, map, length, take,
  bytes_eq, ascii, if◌then◌else◌,
}
use rusty_ice.Core.Mount.{Text}

pub data TranscodeFormat : Type 0 where
  mp3 vorbis : TranscodeFormat

pub record TranscodeConfig : Type 0 where
  pub format : TranscodeFormat
  pub sample_rate : ℕ
  pub bitrate_kbps : ℕ

pub record ServerConfig : Type 0 where
  pub stream_bind : Text
  pub admin_bind : Text
  pub hostname : Text

pub data LogFormat : Type 0 where
  json pretty : LogFormat

pub record LoggingConfig : Type 0 where
  pub level : Text
  pub format : LogFormat

pub data UserRole : Type 0 where
  admin operator : UserRole

pub record UserConfig : Type 0 where
  pub username : Text
  pub password_bcrypt : Text
  pub role : UserRole

pub record AuthConfig : Type 0 where
  pub users : List UserConfig
  pub source_password : Option Text

pub record LimitsConfig : Type 0 where
  pub max_listeners_global : ℕ
  pub ring_size : ℕ
  pub slow_listener_grace_s : ℕ
  pub source_max_kbps : Option ℕ
  pub burst_size : ℕ

pub record MountConfig : Type 0 where
  pub path : Text
  pub source_password : Text
  pub max_listeners : Option ℕ
  pub name : Option Text
  pub description : Option Text
  pub genre : Option Text
  pub url : Option Text
  pub transcode : Option TranscodeConfig
  pub burst_size : Option ℕ

pub data Order : Type 0 where
  shuffle sequential : Order

-- `loop_playlist` is spelled `loop` in the file.
pub record AutoDjConfig : Type 0 where
  pub mount : Text
  pub folder : Text
  pub name : Option Text
  pub description : Option Text
  pub genre : Option Text
  pub url : Option Text
  pub enabled : Bool
  pub loop_playlist : Bool
  pub order : Order
  pub max_listeners : Option ℕ
  pub burst_size : Option ℕ
  pub transcode : TranscodeConfig

pub record RelayConfig : Type 0 where
  pub mount : Text
  pub upstream : Text
  pub name : Option Text
  pub description : Option Text
  pub genre : Option Text
  pub url : Option Text
  pub enabled : Bool
  pub username : Option Text
  pub password : Option Text
  pub max_listeners : Option ℕ
  pub burst_size : Option ℕ
  pub transcode : Option TranscodeConfig

pub record TlsConfig : Type 0 where
  pub acme_domain : Option Text
  pub cert_cache_dir : Option Text

pub record Config : Type 0 where
  pub server : ServerConfig
  pub logging : LoggingConfig
  pub auth : AuthConfig
  pub limits : LimitsConfig
  pub mounts : List MountConfig
  pub autodjs : List AutoDjConfig
  pub relays : List RelayConfig
  pub tls : Option TlsConfig
  pub transcode : Option TranscodeConfig

unfoldable pub effective_transcode : Config → MountConfig → Option TranscodeConfig
effective_transcode cfg mount = elim mount.transcode [ none ↦ cfg.transcode | some tc ↦ some tc ]

unfoldable pub effective_burst_size : Config → MountConfig → ℕ
effective_burst_size cfg mount = elim mount.burst_size [ none ↦ cfg.limits.burst_size | some n ↦ n ]

-- What `validate_paths` finds first; the constructors carry what the message names.
pub data PathError : Type 0 where
  duplicate_mount duplicate_autodj duplicate_relay : Text → PathError
  bad_upstream : Text → Text → PathError
  no_password no_username : Text → PathError

-- The text of the error that `validate_paths` returns.
unfoldable pub path_message : PathError → Text
path_message (duplicate_mount p) = ascii "duplicate mount path: " ++ p
path_message (duplicate_autodj p) = ascii "duplicate autodj mount path: " ++ p
path_message (duplicate_relay p) = ascii "duplicate relay mount path: " ++ p
path_message (bad_upstream p url) =
    ascii "relay '"
    ++ (p ++ (ascii "' upstream must be an http:// or https:// URL, got '" ++ (url ++ ascii "'")))
path_message (no_password p) = ascii "relay '" ++ (p ++ ascii "' has username but no password")
path_message (no_username p) = ascii "relay '" ++ (p ++ ascii "' has password but no username")

unfoldable pub contains : Text → List Text → Bool
contains x [] = false
contains x (y ∷ ys) = bytes_eq x y || contains x ys

-- A loop over paths that inserts each into the set of those seen, and fails at one that is there.
pub data Seen : Type 0 where
  fine : List Text → Seen
  fails : PathError → Seen

unfoldable pub check_unique : (Text → PathError) → List Text → List Text → Seen
check_unique duplicate seen [] = fine seen
check_unique duplicate seen (x ∷ xs) =
    let rest = check_unique duplicate (x ∷ seen) xs in
    if contains x seen then fails (duplicate x) else rest

unfoldable pub starts_with : Text → Text → Bool
starts_with prefix text = bytes_eq prefix (take (length prefix) text)

unfoldable pub check_credentials : RelayConfig → Option PathError
check_credentials r = elim r.username [
  | none ↦ elim r.password [ none ↦ none | some _ ↦ some (no_username r.mount) ]
  | some _ ↦ elim r.password [ none ↦ some (no_password r.mount) | some _ ↦ none ]
]

unfoldable pub check_relay : RelayConfig → Option PathError
check_relay r =
    if not (starts_with (ascii "http://") r.upstream || starts_with (ascii "https://") r.upstream)
    then some (bad_upstream r.mount r.upstream)
    else check_credentials r

unfoldable pub check_relays : List Text → List RelayConfig → Option PathError
check_relays seen [] = none
check_relays seen (r ∷ rs) =
    let rest = check_relays (r.mount ∷ seen) rs in
    if contains r.mount seen
    then some (duplicate_relay r.mount)
    else elim (check_relay r) [ some e ↦ some e | none ↦ rest ]

-- `none` is `Ok(())`.
unfoldable pub validate_paths : Config → Option PathError
validate_paths cfg = elim (check_unique duplicate_mount [] (map (λ m. m.path) cfg.mounts)) [
  | fails e ↦ some e
  | fine seen ↦ elim (check_unique duplicate_autodj seen (map (λ a. a.mount) cfg.autodjs)) [
    | fails e ↦ some e
    | fine seen' ↦ check_relays seen' cfg.relays
  ]
]
