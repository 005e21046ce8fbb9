-- ===== src/Core/Types.antt =====
-- crates/rustyice-core/src/types.rs. Durations are counted in milliseconds; the samples of a decoded
-- frame are never looked at by the modelled code, and only their number is kept.
use rusty_ice.Prelude.{ℕ, String, List, Option, Bool, true, false}

-- The associated constants of `CodecId`; no modelled code makes another one.
pub data CodecId : Type 0 where
  mp3 opus vorbis flac aac wav : CodecId

unfoldable pub as_str : CodecId → String
as_str mp3 = "mp3"
as_str opus = "opus"
as_str vorbis = "vorbis"
as_str flac = "flac"
as_str aac = "aac"
as_str wav = "wav"

-- `==` on codec identifiers.
unfoldable pub codec_eq : CodecId → CodecId → Bool
codec_eq mp3 mp3 = true
codec_eq opus opus = true
codec_eq vorbis vorbis = true
codec_eq flac flac = true
codec_eq aac aac = true
codec_eq wav wav = true
codec_eq _ _ = false

pub record CodecInfo : Type 0 where
  pub id : CodecId
  pub sample_rate : ℕ
  pub channels : ℕ
  pub bitrate_kbps : Option ℕ

pub record EncodedPacket : Type 0 where
  pub codec : CodecId
  pub bytes : List ℕ

pub record PcmFrame : Type 0 where
  pub sample_count : ℕ
  pub sample_rate : ℕ
  pub channels : ℕ

pub data AudioPayload : Type 0 where
  encoded : EncodedPacket → AudioPayload
  decoded : PcmFrame → AudioPayload

pub record StreamPacket : Type 0 where
  pub payload : AudioPayload
  pub pts : ℕ
  pub sequence : ℕ

-- `SourceStats::default()` starts every counter at 0.
pub record SourceStats : Type 0 where
  pub bytes_received : ℕ
  pub packets_published : ℕ
  pub duration : ℕ

pub data DisconnectReason : Type 0 where
  client_disconnected slow_listener kicked source_ended shutting_down : DisconnectReason
