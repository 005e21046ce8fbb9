-- ===== src/Admin/ConfigApi/ReadBack.antt =====
-- crates/rustyice-admin/src/config_write.rs and crates/rustyice-core/src/config.rs: the tables that a
-- save writes, read again.
pub mod Entries
pub mod Document
pub mod Saved
pub mod Tables
pub mod Server
use rusty_ice.Prelude.{
  ℕ, ◌<◌, ◌^◌, ◌≡◌, refl, Bool, true, false, not, ◌&&◌, Option, none, some, ltb, lt→ltb,
  if◌then◌else◌, arith, Checked, val, panic, Checked-cases, inl, inr, ascii, List, [], ◌∷◌, map,
  All, bytes_eq,
}
use rusty_ice.Core.Mount.{Text}
use rusty_ice.Core.Toml.{Item, TomlEdit, entries}
use rusty_ice.Core.Toml.Fill.{later, fill, get-fill_empty}
use rusty_ice.Core.Config.{TranscodeFormat, TranscodeConfig, MountConfig}
use rusty_ice.Core.Config.Read.{
  as_text, as_bool, as_unsigned, as_u32, as_format, format_from_str, required, optional, defaulted,
  each,
}
use rusty_ice.Core.Config.Read.Sections.{read_transcode, read_mount}
use rusty_ice.Admin.ConfigWrite.{TranscodeSubPatch, MountSubPatch}
use rusty_ice.Admin.ConfigWrite.Apply.{
  text_value, integer_value, false_value, nested_transcode, transcode_value, mount_table,
}
use rusty_ice.Admin.ConfigApi.Candidate.{
  format_of, transcode_of, optional_transcode, mount_config, mount_of, collect_checked,
}

abbrev pub IsU32 : ℕ → Type 0
IsU32 n = n < 2 ^ 32

abbrev pub IsOptionalU32 : Option ℕ → Type 0
IsOptionalU32 none = Unit
IsOptionalU32 (some n) = IsU32 n

pub optional-text_value :
    (Table : Type 0) (o : Option Text)
    → optional {Table = Table} as_text (later (text_value o) none) ≡ some o
unfolding optional as_text
optional-text_value Table none = refl
optional-text_value Table (some s) = refl

pub optional-integer_value :
    (Table : Type 0) (o : Option ℕ)
    → IsOptionalU32 o
    → optional {Table = Table} as_u32 (later (integer_value o) none) ≡ some o
unfolding optional as_u32 as_unsigned
optional-integer_value Table none h = refl
optional-integer_value Table (some n) h = ground (arith, h)

pub defaulted-false_value :
    (Table : Type 0) (b : Bool)
    → defaulted {Table = Table} true as_bool (later (false_value b) none) ≡ some b
unfolding defaulted as_bool
defaulted-false_value Table true = refl
defaulted-false_value Table false = refl

pub format_from_str-format_of :
    (s : Text) (f : TranscodeFormat) → format_of s ≡ val f → format_from_str s ≡ some f
unfolding format_of format_from_str
format_from_str-format_of s f h = ground (arith, h)

abbrev pub IsSizedTranscode : TranscodeSubPatch → Type 0
IsSizedTranscode s = IsU32 s.sample_rate × IsU32 s.bitrate_kbps

abbrev pub IsSizedOptional : Option TranscodeSubPatch → Type 0
IsSizedOptional none = Unit
IsSizedOptional (some s) = IsSizedTranscode s

module _ (T : TomlEdit) where
  pub read_transcode-nested :
      (s : TranscodeSubPatch) (f : TranscodeFormat)
      → IsU32 s.sample_rate
      → IsU32 s.bitrate_kbps
      → format_of s.format ≡ val f
      → read_transcode T (nested_transcode T s)
        ≡ some (record { format = f; sample_rate = s.sample_rate; bitrate_kbps = s.bitrate_kbps })
  unfolding read_transcode nested_transcode entries required as_text as_u32 as_unsigned as_format
  read_transcode-nested s f h k e = simp (
    get-fill_empty T,
    format_from_str-format_of s.format f e,
    lt→ltb s.sample_rate (2 ^ 32) h,
    lt→ltb s.bitrate_kbps (2 ^ 32) k,
  )

  pub read_transcode-transcode_of :
      (s : TranscodeSubPatch) (tc : TranscodeConfig)
      → IsSizedTranscode s
      → transcode_of s ≡ val tc
      → read_transcode T (nested_transcode T s) ≡ some tc
  unfolding transcode_of
  read_transcode-transcode_of s tc (h, k) e = elim (Checked-cases (format_of s.format)) [
    | inr (f, g) ↦ ground (arith, g, e, read_transcode-nested s f h k g)
    | inl p ↦ absurd (ground (arith, p, e))
  ]

  pub optional-transcode_value :
      (o : Option TranscodeSubPatch) (tc : Option TranscodeConfig)
      → IsSizedOptional o
      → optional_transcode o ≡ val tc
      → optional (read_transcode T) (later (transcode_value T o) none) ≡ some tc
  unfolding optional optional_transcode
  optional-transcode_value none tc h e = ground (arith, e)
  optional-transcode_value (some s) tc h e = elim (Checked-cases (transcode_of s)) [
    | inr (t, g) ↦ ground (arith, g, e, read_transcode-transcode_of s t h g)
    | inl p ↦ absurd (ground (arith, p, e))
  ]
