-- ===== src/Core/Mount.antt =====
-- crates/rustyice-core/src/mount.rs: a mount's configuration and what its source says of itself.
-- Texts are lists of UTF-8 bytes.
pub mod Slot
pub mod Registry
use rusty_ice.Prelude.{ℕ, List, Option, Bool, false, none, some}
use rusty_ice.Core.Types.{CodecId}

abbrev pub Text : Type 0
Text = List ℕ

pub data SourceKind : Type 0 where
  unowned live auto_dj relay : SourceKind

-- `as u8` and `from_u8`
unfoldable pub as_u8 : SourceKind → ℕ
as_u8 SourceKind.unowned = 0
as_u8 SourceKind.live = 1
as_u8 SourceKind.auto_dj = 2
as_u8 SourceKind.relay = 3

pub record MountMetadata : Type 0 where
  pub name : Option Text
  pub description : Option Text
  pub genre : Option Text
  pub url : Option Text

pub record SourceOverlay : Type 0 where
  pub name : Option Text
  pub description : Option Text
  pub genre : Option Text
  pub url : Option Text
  pub is_public : Option Bool
  pub audio_info : Option Text
  pub bitrate_kbps : Option ℕ

pub record EffectiveIdentity : Type 0 where
  pub name : Option Text
  pub description : Option Text
  pub genre : Option Text
  pub url : Option Text
  pub is_public : Option Bool
  pub audio_info : Option Text
  pub bitrate_kbps : Option ℕ

pub record MountInfo : Type 0 where
  pub path : Text
  pub codec : CodecId
  pub source_password : Text
  pub max_listeners : Option ℕ
  pub metadata : MountMetadata

-- The part of `ActiveMount` that tells who feeds the mount; instants are numbers, and a cancellation
-- token is the number it was made with.
pub record ActiveMount : Type 0 where
  pub info : MountInfo
  pub source_connected : Bool
  pub connected_at : Option ℕ
  pub source_cancel : Option ℕ
  pub current_title : Option Text
  pub source_overlay : Option SourceOverlay
  pub header_bytes : Option (List ℕ)
  pub source_kind : SourceKind
  pub preempt_pending : Bool

unfoldable pub new : MountInfo → ActiveMount
new info = record {
  info = info;
  source_connected = false;
  connected_at = none;
  source_cancel = none;
  current_title = none;
  source_overlay = none;
  header_bytes = none;
  source_kind = SourceKind.unowned;
  preempt_pending = false;
}
