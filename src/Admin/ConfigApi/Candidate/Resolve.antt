-- ===== src/Admin/ConfigApi/Candidate/Resolve.antt =====
-- crates/rustyice-admin/src/api/config.rs: how the handlers find the passwords that a body leaves out.
use rusty_ice.Prelude.{
  ℕ, ◌+◌, false, not, ◌&&◌, Option, none, some, List, [], ◌∷◌, ◌++◌, Dict, lookup, insert, bytes_eq,
  ascii, if◌then◌else◌,
}
use rusty_ice.Core.Mount.{Text}
use rusty_ice.Core.Config.{RelayConfig}
use rusty_ice.Server.Chunked.Size.{trim}
use rusty_ice.Admin.ConfigWrite.{TranscodeSubPatch, MountSubPatch, UserSubPatch, RelaySubPatch}
use rusty_ice.Admin.ConfigWrite.Validate.{is_empty, entry_prefix}
use rusty_ice.Admin.ConfigApi.{
  redacted, PutError, TranscodeSubBody, MountSubBody, UserSubBody, RelaySubBody,
}

pub data Result {ℓ} (A : Type ℓ) : Type ℓ where
  ok : A → Result A
  err : Text → Result A

-- What a handler returns early with: a 400 with an error, or a 500 with a message.
pub data Resolution (A : Type 0) : Type 0 where
  resolved : A → Resolution A
  refused : PutError → Resolution A
  broken : Text → Resolution A

infixl 5 ◌then◌
abbrev pub ◌then◌ : {A B : Type 0} → Resolution A → (A → Resolution B) → Resolution B
resolved a then f = f a
refused e then f = refused e
broken m then f = broken m

unfoldable pub refuse : {A : Type 0} → Text → Option Text → Resolution A
refuse message field = refused (record { error = message; field = field; disk_written = false })

-- `Some(p) if !p.is_empty() && p != "***"`
unfoldable pub supplied : Option Text → Option Text
supplied none = none
supplied (some p) = if not (is_empty p) && not (bytes_eq p redacted) then some p else none

unfoldable pub transcode_patch : TranscodeSubBody → TranscodeSubPatch
transcode_patch t = record {
  format = t.format;
  sample_rate = t.sample_rate;
  bitrate_kbps = t.bitrate_kbps;
}

unfoldable pub optional_patch : Option TranscodeSubBody → Option TranscodeSubPatch
optional_patch none = none
optional_patch (some t) = some (transcode_patch t)

unfoldable pub resolve_mount_password : Dict Text → Option Text → ℕ → MountSubBody → Resolution Text
resolve_mount_password existing global idx m = elim (supplied m.source_password) [
  | some p ↦ resolved p
  | none ↦ elim (lookup m.path existing) [
    | some p ↦ resolved p
    | none ↦ elim global [
      | some p ↦ resolved p
      | none ↦
          refuse
            (ascii
              "new mount requires source_password (no global [auth].source_password is set to fall back on)")
            (some (entry_prefix (ascii "mounts") idx ++ ascii ".source_password"))
    ]
  ]
]

unfoldable pub mount_patch : MountSubBody → Text → MountSubPatch
mount_patch m password = record {
  path = m.path;
  source_password = password;
  max_listeners = m.max_listeners;
  name = m.name;
  description = m.description;
  genre = m.genre;
  url = m.url;
  burst_size = m.burst_size;
  transcode = optional_patch m.transcode;
}

unfoldable pub resolve_mounts :
    Dict Text → Option Text → ℕ → List MountSubBody → Resolution (List MountSubPatch)
resolve_mounts existing global idx [] = resolved []
resolve_mounts existing global idx (m ∷ ms) =
    let rest = resolve_mounts existing global (idx + 1) ms in
    resolve_mount_password existing global idx m then λ p.
    rest then λ ps. resolved (mount_patch m p ∷ ps)

module _ (hash : Text → Result Text) where
  -- A blocking task that panics is not modelled.
  unfoldable pub resolve_user_password : Dict Text → ℕ → Text → Option Text → Resolution Text
  resolve_user_password existing idx username password = elim (supplied password) [
    | some p ↦ elim (hash p) [
      | ok h ↦ resolved h
      | err e ↦ broken (ascii "bcrypt hash failed: " ++ e)
    ]
    | none ↦ elim (lookup username existing) [
      | some h ↦ resolved h
      | none ↦
          refuse (ascii "new user requires a password")
            (some (entry_prefix (ascii "users") idx ++ ascii ".password"))
    ]
  ]

  unfoldable pub resolve_user : Dict Text → ℕ → UserSubBody → Resolution UserSubPatch
  resolve_user existing idx u =
      let username = trim u.username in
      if is_empty username
      then refuse (ascii "must be non-empty")
          (some (entry_prefix (ascii "users") idx ++ ascii ".username"))
      else (resolve_user_password existing idx username u.password then λ h.
          resolved (record { username = username; password_bcrypt = h; role = u.role }))

  unfoldable pub resolve_users : Dict Text → ℕ → List UserSubBody → Resolution (List UserSubPatch)
  resolve_users existing idx [] = resolved []
  resolve_users existing idx (u ∷ us) =
      let rest = resolve_users existing (idx + 1) us in
      resolve_user existing idx u then λ p. rest then λ ps. resolved (p ∷ ps)

-- `filter_map` over the relays that have a password, collected into a map.
unfoldable pub collect_relays : Dict Text → List RelayConfig → Dict Text
collect_relays d [] = d
collect_relays d (r ∷ rs) =
    collect_relays (elim r.password [ none ↦ d | some p ↦ insert r.mount p d ]) rs

unfoldable pub resolve_relay : Dict Text → RelaySubBody → RelaySubPatch
resolve_relay existing r = record {
  mount = r.mount;
  upstream = r.upstream;
  enabled = r.enabled;
  name = r.name;
  description = r.description;
  genre = r.genre;
  url = r.url;
  username = r.username;
  password = elim (supplied r.password) [ some p ↦ some p | none ↦ lookup r.mount existing ];
  max_listeners = r.max_listeners;
  burst_size = r.burst_size;
  transcode = optional_patch r.transcode;
}
