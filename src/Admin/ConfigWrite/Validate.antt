-- ===== src/Admin/ConfigWrite/Validate.antt =====
-- crates/rustyice-admin/src/config_write.rs: the validators, where `none` is `Ok(())`.
pub mod Entries
use rusty_ice.Prelude.{
  ℕ, zero, suc, ◌+◌, Bool, true, false, not, ◌&&◌, ◌||◌, Option, none, some, List, [], ◌∷◌, ◌++◌,
  length, drop, bytes_eq, ascii, ltb, ◌==◌, if◌then◌else◌,
}
use rusty_ice.Core.Mount.{Text}
use rusty_ice.Core.Identity.{decimal}
use rusty_ice.Core.Config.{starts_with}
use rusty_ice.Server.Chunked.Size.{trim}
use rusty_ice.Admin.ConfigWrite.{
  ServerPatch, TranscodePatch, TranscodeSubPatch, MountSubPatch, UserSubPatch, AutoDjSubPatch,
  RelaySubPatch, WriteError,
}

unfoldable pub error : Text → Text → Option WriteError
error field message = some (record { field = field; message = message })

-- The checks of a function in their order: the first that fails is the result.
infixr 4 ◌or_else◌
abbrev pub ◌or_else◌ : Option WriteError → Option WriteError → Option WriteError
none or_else next = next
some e or_else next = some e

-- `if b { return Err(e) }`
abbrev pub fails_if : Bool → Option WriteError → Option WriteError
fails_if b e = if b then e else none

unfoldable pub is_empty : Text → Bool
is_empty [] = true
is_empty (x ∷ xs) = false

unfoldable pub is_blank : Text → Bool
is_blank s = is_empty (trim s)

unfoldable pub max_burst : ℕ
max_burst = 16777216

-- "must be <= 16777216 bytes (16 MiB)"
unfoldable pub burst_message : Text
burst_message = ascii "must be <= " ++ (decimal max_burst ++ ascii " bytes (16 MiB)")

unfoldable pub validate_server_patch : ServerPatch → Option WriteError
validate_server_patch p =
    fails_if (p.limits.ring_size == 0)
      (error (ascii "limits.ring_size") (ascii "must be greater than 0"))
    or_else fails_if (p.limits.max_listeners_global == 0)
        (error (ascii "limits.max_listeners_global") (ascii "must be greater than 0"))
    or_else fails_if (ltb max_burst p.limits.burst_size)
        (error (ascii "limits.burst_size") burst_message)
    or_else fails_if
        (not (bytes_eq p.logging.format (ascii "pretty"))
          && not (bytes_eq p.logging.format (ascii "json")))
        (error (ascii "logging.format") (ascii "must be \"pretty\" or \"json\""))
    or_else fails_if (is_blank p.server.hostname)
        (error (ascii "server.hostname") (ascii "must be non-empty"))
    or_else fails_if (is_blank p.logging.level)
        (error (ascii "logging.level") (ascii "must be non-empty"))

unfoldable pub validate_transcode : TranscodeSubPatch → Option WriteError
validate_transcode sub =
    fails_if (not (bytes_eq sub.format (ascii "mp3")) && not (bytes_eq sub.format (ascii "vorbis")))
      (error (ascii "transcode.format") (ascii "must be \"mp3\" or \"vorbis\""))
    or_else fails_if (sub.sample_rate == 0)
        (error (ascii "transcode.sample_rate") (ascii "must be greater than 0"))
    or_else fails_if (ltb 192000 sub.sample_rate)
        (error (ascii "transcode.sample_rate") (ascii "must be <= 192000 Hz"))
    or_else fails_if (sub.bitrate_kbps == 0)
        (error (ascii "transcode.bitrate_kbps") (ascii "must be greater than 0"))
    or_else fails_if (ltb 512 sub.bitrate_kbps)
        (error (ascii "transcode.bitrate_kbps") (ascii "must be <= 512 kbps"))

unfoldable pub validate_transcode_patch : TranscodePatch → Option WriteError
validate_transcode_patch p = elim p.transcode [ none ↦ none | some sub ↦ validate_transcode sub ]

-- `field.strip_prefix("transcode.").unwrap_or(&field)`
unfoldable pub strip_transcode : Text → Text
strip_transcode field =
    if starts_with (ascii "transcode.") field
    then drop (length (ascii "transcode.")) field
    else field

-- The validator of an entry's transcode block, whose error names the entry.
unfoldable pub validate_nested : Text → TranscodeSubPatch → Option WriteError
validate_nested prefix tc = elim (validate_transcode_patch (record { transcode = some tc })) [
  | none ↦ none
  | some e ↦ error (prefix ++ (ascii ".transcode." ++ strip_transcode e.field)) e.message
]

unfoldable pub validate_nested_optional : Text → Option TranscodeSubPatch → Option WriteError
validate_nested_optional prefix none = none
validate_nested_optional prefix (some tc) = validate_nested prefix tc

-- `format!("mounts[{idx}]")`
unfoldable pub entry_prefix : Text → ℕ → Text
entry_prefix list idx = list ++ (ascii "[" ++ (decimal idx ++ ascii "]"))

-- The checks on a path that is a new one.
unfoldable pub check_path : Text → Text → Option WriteError
check_path field path =
    fails_if (is_blank path) (error field (ascii "must be non-empty"))
    or_else fails_if (not (starts_with (ascii "/") path))
        (error field (ascii "must start with \"/\""))

unfoldable pub check_max_listeners : Text → Option ℕ → Option WriteError
check_max_listeners prefix none = none
check_max_listeners prefix (some n) =
    fails_if (n == 0)
      (error (prefix ++ ascii ".max_listeners") (ascii "must be greater than 0 when set"))

unfoldable pub check_burst_size : Text → Option ℕ → Option WriteError
check_burst_size prefix none = none
check_burst_size prefix (some b) =
    fails_if (ltb max_burst b) (error (prefix ++ ascii ".burst_size") burst_message)

-- The checks after that for a repeated path.
unfoldable pub check_mount : Text → MountSubPatch → Option WriteError
check_mount prefix m =
    fails_if (is_blank m.source_password)
      (error (prefix ++ ascii ".source_password") (ascii "must be non-empty"))
    or_else check_max_listeners prefix m.max_listeners
    or_else check_burst_size prefix m.burst_size
    or_else validate_nested_optional prefix m.transcode

unfoldable pub check_user : Text → UserSubPatch → Option WriteError
check_user prefix u =
    fails_if (is_empty u.password_bcrypt)
      (error (prefix ++ ascii ".password") (ascii "must be set when creating a user"))
    or_else fails_if
        (not (bytes_eq u.role (ascii "admin")) && not (bytes_eq u.role (ascii "operator")))
        (error (prefix ++ ascii ".role") (ascii "must be \"admin\" or \"operator\""))

unfoldable pub check_autodj : Text → AutoDjSubPatch → Option WriteError
check_autodj prefix a =
    fails_if (is_blank a.folder) (error (prefix ++ ascii ".folder") (ascii "must be non-empty"))
    or_else fails_if
        (not (bytes_eq a.order (ascii "shuffle")) && not (bytes_eq a.order (ascii "sequential")))
        (error (prefix ++ ascii ".order") (ascii "must be \"shuffle\" or \"sequential\""))
    or_else check_max_listeners prefix a.max_listeners
    or_else check_burst_size prefix a.burst_size
    or_else validate_nested prefix a.transcode

unfoldable pub check_login : Text → RelaySubPatch → Option WriteError
check_login prefix r = elim r.username [
  | some u ↦ elim r.password [
    | some _ ↦ none
    | none ↦
        fails_if (not (is_empty u))
          (error (prefix ++ ascii ".password") (ascii "must be set when username is set"))
  ]
  | none ↦ elim r.password [
    | none ↦ none
    | some p ↦
        fails_if (not (is_empty p))
          (error (prefix ++ ascii ".username") (ascii "must be set when password is set"))
  ]
]

unfoldable pub check_relay_patch : Text → RelaySubPatch → Option WriteError
check_relay_patch prefix r =
    fails_if
      (not (starts_with (ascii "http://") r.upstream || starts_with (ascii "https://") r.upstream))
      (error (prefix ++ ascii ".upstream") (ascii "must be an http:// or https:// URL"))
    or_else check_login prefix r
    or_else check_max_listeners prefix r.max_listeners
    or_else check_burst_size prefix r.burst_size
    or_else validate_nested_optional prefix r.transcode
