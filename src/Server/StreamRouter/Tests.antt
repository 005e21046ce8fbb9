-- ===== src/Server/StreamRouter/Tests.antt =====
-- Each result of the stream router's modules at a concrete input.
use rusty_ice.Prelude.{◌≡◌, true, false, none, some, List, [], ◌∷◌, ascii}
use rusty_ice.Core.Types.{CodecId, encoded, DisconnectReason}
use rusty_ice.Core.Config.{Config, TranscodeFormat}
use rusty_ice.Core.Config.Example.{plain_config}
use rusty_ice.Core.Mount.{MountInfo, ActiveMount, SourceKind}
use rusty_ice.Output.HttpPassthrough.{Listener, Event, next}
use rusty_ice.Output.HttpPassthrough.Framing.{broadcast, audio_in}
use rusty_ice.Server.StreamRouter.{accept, serve, find_mount, mount_transcode, resolve_output_codec}
use rusty_ice.Server.StreamRouter.Serve.{serve-accept}

abbrev info : MountInfo
info = record {
  path = ascii "/live";
  codec = CodecId.mp3;
  source_password = ascii "secret";
  max_listeners = some 2;
  metadata = record { name = none; description = none; genre = none; url = none };
}

abbrev mount : ActiveMount
mount = record {
  info = info;
  source_connected = true;
  connected_at = some 0;
  source_cancel = some 0;
  current_title = none;
  source_overlay = none;
  header_bytes = some (7 ∷ 8 ∷ []);
  source_kind = SourceKind.unowned;
  preempt_pending = false;
}

-- An MP3 source that is transcoded to Ogg Vorbis.
abbrev config : Config
config = record plain_config {
  transcode =
      some (record { format = TranscodeFormat.vorbis; sample_rate = 44100; bitrate_kbps = 96 });
}

abbrev packets : List Event
packets =
    next (record {
      payload = encoded (record { codec = CodecId.vorbis; bytes = 1 ∷ 2 ∷ [] });
      pts = 0;
      sequence = 0;
    })
    ∷ []

serve-accept_example :
    (l : Listener) × (reason : DisconnectReason) × (serve
        (λ _. 0 ∷ [])
        (accept config (ascii "/live") mount (some (ascii "1")))
        packets
      ≡ some (l, reason))
    × (l.wire ≡ 7 ∷ 8 ∷ 1 ∷ 2 ∷ [])
    × (l.bytes_sent ≡ 2)
unfolding broadcast audio_in mount_transcode find_mount resolve_output_codec
serve-accept_example =
    serve-accept config (ascii "/live") mount (some (ascii "1")) (λ _. 0 ∷ []) packets (λ e. cc)
