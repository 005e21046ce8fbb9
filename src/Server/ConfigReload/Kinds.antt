-- ===== src/Server/ConfigReload/Kinds.antt =====
-- crates/rustyice-server/src/config_reload.rs: what is particular to AutoDJs and to relays.
use rusty_ice.Prelude.{Bool, true, false, not, ◌&&◌, ◌||◌, Option, none, some, ◌==◌, bytes_eq}
use rusty_ice.Core.Types.{CodecId}
use rusty_ice.Core.Config.{TranscodeFormat, TranscodeConfig, Order, AutoDjConfig, RelayConfig}
use rusty_ice.Server.ConfigReload.Diff.{TaskKind}

-- The derived `PartialEq` of the fields that are compared.
unfoldable pub bool_eq : Bool → Bool → Bool
bool_eq true b = b
bool_eq false b = not b

unfoldable pub option_eq : {A : Type 0} → (A → A → Bool) → Option A → Option A → Bool
option_eq eq none none = true
option_eq eq none (some _) = false
option_eq eq (some _) none = false
option_eq eq (some a) (some b) = eq a b

unfoldable pub format_eq : TranscodeFormat → TranscodeFormat → Bool
format_eq TranscodeFormat.mp3 TranscodeFormat.mp3 = true
format_eq TranscodeFormat.mp3 TranscodeFormat.vorbis = false
format_eq TranscodeFormat.vorbis TranscodeFormat.mp3 = false
format_eq TranscodeFormat.vorbis TranscodeFormat.vorbis = true

unfoldable pub transcode_eq : TranscodeConfig → TranscodeConfig → Bool
transcode_eq a b =
    format_eq a.format b.format
    && ((a.sample_rate == b.sample_rate) && (a.bitrate_kbps == b.bitrate_kbps))

unfoldable pub order_eq : Order → Order → Bool
order_eq Order.shuffle Order.shuffle = true
order_eq Order.shuffle Order.sequential = false
order_eq Order.sequential Order.shuffle = false
order_eq Order.sequential Order.sequential = true

unfoldable pub autodj_differs : AutoDjConfig → AutoDjConfig → Bool
autodj_differs o new =
    not (bool_eq o.enabled new.enabled)
    || (not (bytes_eq o.folder new.folder)
        || (not (bool_eq o.loop_playlist new.loop_playlist)
            || (not (order_eq o.order new.order)
                || (not (transcode_eq o.transcode new.transcode)
                    || not (option_eq (λ m n. m == n) o.burst_size new.burst_size)))))

unfoldable pub relay_differs : RelayConfig → RelayConfig → Bool
relay_differs o new =
    not (bool_eq o.enabled new.enabled)
    || (not (bytes_eq o.upstream new.upstream)
        || (not (option_eq bytes_eq o.username new.username)
            || (not (option_eq bytes_eq o.password new.password)
                || (not (option_eq transcode_eq o.transcode new.transcode)
                    || not (option_eq (λ m n. m == n) o.burst_size new.burst_size)))))

unfoldable pub codec_seed : TranscodeFormat → CodecId
codec_seed TranscodeFormat.mp3 = CodecId.mp3
codec_seed TranscodeFormat.vorbis = CodecId.vorbis

unfoldable pub autodj : TaskKind AutoDjConfig
autodj = record {
  mount = λ a. a.mount;
  enabled = λ a. a.enabled;
  differs = autodj_differs;
  codec = λ a. codec_seed a.transcode.format;
  burst_size = λ a. a.burst_size;
  max_listeners = λ a. a.max_listeners;
  metadata =
      λ a. record { name = a.name; description = a.description; genre = a.genre; url = a.url };
}

unfoldable pub relay : TaskKind RelayConfig
relay = record {
  mount = λ r. r.mount;
  enabled = λ r. r.enabled;
  differs = relay_differs;
  codec = λ _. CodecId.mp3;
  burst_size = λ r. r.burst_size;
  max_listeners = λ r. r.max_listeners;
  metadata =
      λ r. record { name = r.name; description = r.description; genre = r.genre; url = r.url };
}
