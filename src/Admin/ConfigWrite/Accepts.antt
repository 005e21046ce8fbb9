-- ===== src/Admin/ConfigWrite/Accepts.antt =====
-- crates/rustyice-admin/src/config_write.rs: what the checks on single fields accept.
pub mod Sections
use rusty_ice.Prelude.{
  ℕ, ◌<◌, ◌≤◌, ◌≡◌, ◌↔◌, ◌⊎◌, ◌≢◌, refl, ap, inl, inr, true, false, not, ◌&&◌, ◌||◌, Bool, Option,
  none, some, List, [], ◌∷◌, ◌++◌, map, All, arith, bytes_eq, bytes_eq_iff, ascii, ltb, ◌==◌,
  ==_iff, ◌+◌, Bool-cases, Option-cases, if◌then◌else◌,
}
use rusty_ice.Core.Mount.{Text}
use rusty_ice.Core.Config.{contains, starts_with}
use rusty_ice.Core.Config.Paths.{Distinct, AreNew, AreNew-cons, nothing_seen}
use rusty_ice.Admin.ConfigWrite.{
  TranscodeSubPatch, TranscodePatch, MountSubPatch, MountsPatch, UserSubPatch, UsersPatch,
  AutoDjSubPatch, AutoDjsPatch, RelaySubPatch, RelaysPatch, WriteError,
}
use rusty_ice.Admin.ConfigWrite.Validate.{
  error, ◌or_else◌, fails_if, is_empty, is_blank, max_burst, validate_transcode,
  validate_transcode_patch, validate_nested, validate_nested_optional, entry_prefix, check_path,
  check_max_listeners, check_burst_size, check_mount, check_user, check_autodj, check_login,
  check_relay_patch,
}
use rusty_ice.Admin.ConfigWrite.Validate.Entries.{
  Section, check_entry, validate_entries, mount_section, user_section, autodj_section,
  relay_section, check_username, validate_mounts_patch, has_admin, validate_users_patch,
  validate_autodjs_patch, validate_relays_patch,
}

pub or_else-none : (a b : Option WriteError) → ((a or_else b) ≡ none) ↔ ((a ≡ none) × (b ≡ none))
or_else-none none b = (λ h. (refl, h), λ (_, h). h)
or_else-none (some e) b = (λ h. absurd (ground (arith, h)), λ (h, _). absurd (ground (arith, h)))

pub fails_if-none :
    (b : Bool) (field message : Text) → (fails_if b (error field message) ≡ none) ↔ (b ≡ false)
unfolding error
fails_if-none true field message =
    (λ h. absurd (ground (arith, h)), λ h. absurd (ground (arith, h)))
fails_if-none false field message = (λ _. refl, λ _. refl)

pub record IsSoundTranscode (s : TranscodeSubPatch) : Type 0 where
  pub known_format : (s.format ≡ ascii "mp3") ⊎ (s.format ≡ ascii "vorbis")
  pub sample_rate_positive : 0 < s.sample_rate
  pub sample_rate_bound : s.sample_rate ≤ 192000
  pub bitrate_positive : 0 < s.bitrate_kbps
  pub bitrate_bound : s.bitrate_kbps ≤ 512

-- `s != a && s != b`
pub one_of :
    (s a b : Text) → ((not (bytes_eq s a) && not (bytes_eq s b)) ≡ false) ↔ ((s ≡ a) ⊎ (s ≡ b))
one_of s a b = (
  λ h. elim (Bool-cases (bytes_eq s a)) [
    | inl e ↦ inl ((bytes_eq_iff s a).0 e)
    | inr n ↦ inr ((bytes_eq_iff s b).0 (ground (arith, h, n)))
  ],
  λ h. elim h [
    | inl e ↦ ground (arith, (bytes_eq_iff s a).1 e)
    | inr e ↦ ground (arith, (bytes_eq_iff s b).1 e)
  ],
)

pub validate_transcode-none :
    (s : TranscodeSubPatch) → (validate_transcode s ≡ none) ↔ IsSoundTranscode s
unfolding validate_transcode error
validate_transcode-none s =
    let (to, from) = one_of s.format (ascii "mp3") (ascii "vorbis") in
    (
      λ h. record {
        known_format = to (ground (arith, h));
        sample_rate_positive = ground (arith, h);
        sample_rate_bound = ground (arith, h);
        bitrate_positive = ground (arith, h);
        bitrate_bound = ground (arith, h);
      },
      λ h. ground (
        arith,
        from h.known_format,
        h.sample_rate_positive,
        h.sample_rate_bound,
        h.bitrate_positive,
        h.bitrate_bound,
      ),
    )

pub validate_nested-none :
    (prefix : Text) (s : TranscodeSubPatch) → (validate_nested prefix s ≡ none) ↔ IsSoundTranscode s
unfolding validate_nested validate_transcode_patch error
validate_nested-none prefix s =
    let (to, from) = validate_transcode-none s in
    elim (Option-cases (validate_transcode s)) [
      | inl e ↦ (λ _. to e, λ _. ground (arith, e))
      | inr (x, e) ↦ (λ h. absurd (ground (arith, e, h)), λ h. absurd (ground (arith, e, from h)))
    ]

abbrev pub IsSoundOptional : Option TranscodeSubPatch → Type 0
IsSoundOptional none = Unit
IsSoundOptional (some s) = IsSoundTranscode s

pub validate_nested_optional-none :
    (prefix : Text) (o : Option TranscodeSubPatch)
    → (validate_nested_optional prefix o ≡ none) ↔ IsSoundOptional o
unfolding validate_nested_optional
validate_nested_optional-none prefix none = (λ _. tt, λ _. refl)
validate_nested_optional-none prefix (some s) = validate_nested-none prefix s

abbrev pub IsWithin : Option ℕ → Option ℕ → Type 0
IsWithin listeners burst = (listeners ≢ some 0) × ((b : ℕ) → burst ≡ some b → b ≤ 16777216)

pub check_max_listeners-none :
    (prefix : Text) (o : Option ℕ) → (check_max_listeners prefix o ≡ none) ↔ (o ≢ some 0)
unfolding check_max_listeners error
check_max_listeners-none prefix none = (λ _ h. absurd (ground (arith, h)), λ _. refl)
check_max_listeners-none prefix (some n) = (
  λ h e. absurd (ground (arith, h, e)),
  λ h. elim (Bool-cases (n == 0)) [
    | inl e ↦ absurd (h (ap some (omega (arith, (==_iff n 0).0 e))))
    | inr e ↦ ground (arith, e)
  ],
)

pub check_burst_size-none :
    (prefix : Text) (o : Option ℕ)
    → (check_burst_size prefix o ≡ none) ↔ ((b : ℕ) → o ≡ some b → b ≤ 16777216)
unfolding check_burst_size error max_burst
check_burst_size-none prefix none = (λ _ b h. absurd (ground (arith, h)), λ _. refl)
check_burst_size-none prefix (some n) =
    (λ h b e. ground (arith, h, e), λ h. let k = h n refl in ground (arith, k))
