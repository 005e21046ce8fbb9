-- ===== src/Admin/ConfigApi/Echo.antt =====
-- crates/rustyice-admin/src/api/config.rs: the plain mounts that a client was shown, sent back as they are.
use rusty_ice.Prelude.{
  ℕ, ◌+◌, false, ◌≡◌, ◌⊎◌, inl, inr, refl, Option, none, some, List, [], ◌∷◌, map, All, arith, Dict,
  lookup, insert, lookup-insert, bytes_eq_refl, ascii, val, ◌∙◌, ◌++◌,
}
use rusty_ice.Core.Mount.{Text}
use rusty_ice.Core.Config.{
  Config, MountConfig, TranscodeConfig, TranscodeFormat, contains, validate_paths,
}
use rusty_ice.Core.Config.Paths.{Distinct, validate_paths-none}
use rusty_ice.Auth.{collect_mounts}
use rusty_ice.Admin.ConfigWrite.{MountSubPatch}
use rusty_ice.Admin.ConfigWrite.Validate.{is_empty}
use rusty_ice.Admin.ConfigWrite.Validate.Entries.{validate_mounts_patch}
use rusty_ice.Admin.ConfigApi.{redacted, redact, redact_mount, MountSubBody, TranscodeSubBody}
use rusty_ice.Admin.ConfigApi.Candidate.{
  format_of, transcode_of, optional_transcode, mount_config, mount_of, collect_checked,
}
use rusty_ice.Admin.ConfigApi.Candidate.Resolve.{
  resolved, supplied, transcode_patch, optional_patch, resolve_mount_password, mount_patch,
  resolve_mounts,
}
use rusty_ice.Admin.ConfigApi.Candidate.Decide.{
  accepted, if_valid, check_paths, with_resolved, overlay_mounts, decide_mounts,
}

-- The text that a format is shown as.
abbrev format_name : TranscodeFormat → Text
format_name TranscodeFormat.mp3 = ascii "mp3"
format_name TranscodeFormat.vorbis = ascii "vorbis"

abbrev echo_transcode : Option TranscodeConfig → Option TranscodeSubBody
echo_transcode none = none
echo_transcode (some t) = some (record {
  format = format_name t.format;
  sample_rate = t.sample_rate;
  bitrate_kbps = t.bitrate_kbps;
})

abbrev pub echo_mount : MountConfig → MountSubBody
echo_mount m = record {
  path = m.path;
  source_password = some m.source_password;
  max_listeners = m.max_listeners;
  name = m.name;
  description = m.description;
  genre = m.genre;
  url = m.url;
  burst_size = m.burst_size;
  transcode = echo_transcode m.transcode;
}

-- The patch that writes a mount as it is.
abbrev pub own_patch : MountConfig → MountSubPatch
own_patch m = mount_patch (echo_mount m) m.source_password

contains-front :
    (x : Text) (xs ys : List Text) → contains x (xs ++ ys) ≡ false → contains x xs ≡ false
unfolding contains
contains-front x [] ys h = refl
contains-front x (y ∷ xs) ys h = ground (arith, h, contains-front x xs ys)

Distinct-front : (xs ys : List Text) → Distinct (xs ++ ys) → Distinct xs
Distinct-front [] ys h = tt
Distinct-front (x ∷ xs) ys (h, k) = (contains-front x xs ys h, Distinct-front xs ys k)

absent_collect_mounts :
    (path : Text) (ms : List MountConfig) (d : Dict Text)
    → contains path (map (λ m. m.path) ms) ≡ false
    → lookup path (collect_mounts d ms) ≡ lookup path d
unfolding collect_mounts contains
absent_collect_mounts path [] d h = refl
absent_collect_mounts path (m ∷ ms) d h = ground (
  arith,
  h,
  absent_collect_mounts path ms (insert m.path m.source_password d),
  lookup-insert path m.path m.source_password d,
)

-- Mounts of different paths are found with their own passwords.
stored_passwords :
    (ms : List MountConfig) (d : Dict Text)
    → Distinct (map (λ m. m.path) ms)
    → All (λ m. lookup m.path (collect_mounts d ms) ≡ some m.source_password) ms
unfolding collect_mounts
stored_passwords [] d h = tt
stored_passwords (m ∷ ms) d (fresh, h) =
    let d' = insert m.path m.source_password d in
    (
      absent_collect_mounts m.path ms d' fresh
          ∙ ground (arith, lookup-insert m.path m.path m.source_password d, bytes_eq_refl m.path),
      stored_passwords ms d' h,
    )

patch_of_redacted :
    (m : MountConfig) (p : Text)
    → mount_patch (echo_mount (redact_mount m)) p ≡ mount_patch (echo_mount m) p
unfolding mount_patch redact_mount
patch_of_redacted m p = refl

password_of_redacted :
    (existing : Dict Text) (global : Option Text) (idx : ℕ) (m : MountConfig)
    → lookup m.path existing ≡ some m.source_password
    → resolve_mount_password existing global idx (echo_mount (redact_mount m))
      ≡ resolved m.source_password
unfolding resolve_mount_password supplied is_empty redacted redact_mount
password_of_redacted existing global idx m h = ground (arith, h)

resolve_echo :
    (existing : Dict Text) (global : Option Text) (idx : ℕ) (ms : List MountConfig)
    → All (λ m. lookup m.path existing ≡ some m.source_password) ms
    → resolve_mounts existing global idx (map echo_mount (map redact_mount ms))
      ≡ resolved (map own_patch ms)
unfolding resolve_mounts
resolve_echo existing global idx [] h = refl
resolve_echo existing global idx (m ∷ ms) (h, hs) = ground (
  arith,
  password_of_redacted existing global idx m h,
  patch_of_redacted m m.source_password,
  resolve_echo existing global (idx + 1) ms hs,
)

format_cases : (f : TranscodeFormat) → (f ≡ TranscodeFormat.mp3) ⊎ (f ≡ TranscodeFormat.vorbis)
format_cases TranscodeFormat.mp3 = inl refl
format_cases TranscodeFormat.vorbis = inr refl

transcode_of_own :
    (o : Option TranscodeConfig) → optional_transcode (optional_patch (echo_transcode o)) ≡ val o
unfolding optional_transcode transcode_of format_of optional_patch transcode_patch
transcode_of_own none = refl
transcode_of_own (some t) = elim (format_cases t.format) [
  | inl e ↦ ground (arith, e)
  | inr e ↦ ground (arith, e)
]

own_transcode : (m : MountConfig) → optional_transcode (own_patch m).transcode ≡ val m.transcode
unfolding mount_patch
own_transcode m = transcode_of_own m.transcode

config_of_own : (m : MountConfig) → mount_config (own_patch m) m.transcode ≡ m
unfolding mount_config mount_patch
config_of_own m = refl

mount_of_own : (m : MountConfig) → mount_of (own_patch m) ≡ val m
unfolding mount_of
mount_of_own m =
    let transcode : optional_transcode (own_patch m).transcode ≡ val m.transcode =
      own_transcode m in
    ground (arith, transcode, config_of_own m)

collect_own : (ms : List MountConfig) → collect_checked mount_of (map own_patch ms) ≡ val ms
unfolding collect_checked
collect_own [] = refl
collect_own (m ∷ ms) = ground (arith, mount_of_own m, collect_own ms)

-- A client that sends the plain mounts back as it was shown them, with their passwords redacted, asks for
-- the configuration that is running: only a validator may refuse, and what is accepted is that
-- configuration, every mount with its own password. The running configuration is one that `validate_paths`
-- accepts.
pub decide_mounts-redact :
    (cfg : Config)
    → validate_paths cfg ≡ none
    → decide_mounts (map echo_mount (redact cfg).mounts) cfg
      ≡ if_valid
          (validate_mounts_patch (record { mounts = map own_patch cfg.mounts }))
          (accepted cfg (record { mounts = map own_patch cfg.mounts }))
unfolding decide_mounts redact overlay_mounts check_paths with_resolved if_valid
decide_mounts-redact cfg h =
    let (d, _) = (validate_paths-none cfg).0 h in
    let stored =
      stored_passwords cfg.mounts [] (Distinct-front (map (λ m. m.path) cfg.mounts) _ d) in
    ground (
      arith,
      h,
      collect_own cfg.mounts,
      resolve_echo (collect_mounts [] cfg.mounts) cfg.auth.source_password 0 cfg.mounts stored,
    )
