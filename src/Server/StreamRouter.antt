-- ===== src/Server/StreamRouter.antt =====
-- crates/rustyice-server/src/stream_router.rs: how a listener is admitted and what it is served. The
-- registry's lookup and the two counts are arguments, as the handler reads each of them once; so is
-- the value of the request's Icy-MetaData header, where it is there and `to_str` takes it.
pub mod Serve
mod Tests
use rusty_ice.Prelude.{
  ℕ, String, Bool, true, false, ◌&&◌, Option, none, some, List, [], ◌∷◌, ◌++◌, leb, bytes_eq,
  if◌then◌else◌, ascii,
}
use rusty_ice.Core.Types.{CodecId, codec_eq}
use rusty_ice.Core.Config.{
  Config, MountConfig, TranscodeConfig, TranscodeFormat, effective_transcode,
}
use rusty_ice.Core.Mount.{Text, ActiveMount, EffectiveIdentity}
use rusty_ice.Core.Identity.{effective_identity}
use rusty_ice.Server.Chunked.Size.{trim}
use rusty_ice.Output.HttpPassthrough.{Listener, joined, Event, run}
use rusty_ice.Core.Types.{DisconnectReason}

-- `iter().find(|m| m.path == mount_path)`
unfoldable pub find_mount : Text → List MountConfig → Option MountConfig
find_mount path [] = none
find_mount path (m ∷ ms) = if bytes_eq m.path path then some m else find_mount path ms

unfoldable pub mount_transcode : Config → Text → Option TranscodeConfig
mount_transcode cfg path = elim (find_mount path cfg.mounts) [
  | some mc ↦ effective_transcode cfg mc
  | none ↦ cfg.transcode
]

unfoldable pub resolve_output_codec : CodecId → Option TranscodeConfig → CodecId
resolve_output_codec source none = source
resolve_output_codec source (some tc) = elim tc.format [
  | TranscodeFormat.mp3 ↦ CodecId.mp3
  | TranscodeFormat.vorbis ↦ CodecId.vorbis
]

unfoldable pub content_type_for : CodecId → String
content_type_for CodecId.vorbis = "application/ogg"
content_type_for _ = "audio/mpeg"

-- What an accepted listener is answered with and fed from. `prefix` holds the captured headers.
pub record Accepted : Type 0 where
  pub content_type : String
  pub identity : EffectiveIdentity
  pub icy_requested : Bool
  pub prefix : Option (List ℕ)

-- The bus is subscribed to without its history where headers were captured.
unfoldable pub is_live : Accepted → Bool
is_live a = elim a.prefix [ none ↦ false | some _ ↦ true ]

pub data Response : Type 0 where
  not_found server_full mount_full : Response
  accepted : Accepted → Response

unfoldable pub accept : Config → Text → ActiveMount → Option Text → Accepted
accept cfg path mount icy_metadata =
    let transcode = mount_transcode cfg path in
    let output_codec = resolve_output_codec mount.info.codec transcode in
    record {
      content_type = content_type_for output_codec;
      identity = effective_identity mount transcode;
      icy_requested =
          codec_eq output_codec CodecId.mp3
          && elim icy_metadata [ none ↦ false | some v ↦ bytes_eq (trim v) (ascii "1") ];
      prefix = mount.header_bytes;
    }

unfoldable pub admit : Config → ℕ → ℕ → Text → Option ActiveMount → Option Text → Response
admit cfg total_count listener_count path none icy_metadata = not_found
admit cfg total_count listener_count path (some mount) icy_metadata =
    let answer = accepted (accept cfg path mount icy_metadata) in
    if leb cfg.limits.max_listeners_global total_count
    then server_full
    else elim mount.info.max_listeners [
      | none ↦ answer
      | some max ↦ if leb max listener_count then mount_full else answer
    ]

-- `write_all` of the captured headers, which `run` does not count.
unfoldable pub primed : Accepted → Listener
primed a = elim a.prefix [ none ↦ joined | some headers ↦ record joined { wire = headers } ]

-- The task of the listener: the prefix, if there is one, and then the output over what the
-- subscription and the cancellation bring. `frame k` is the k-th metadata frame.
unfoldable pub serve : (ℕ → List ℕ) → Accepted → List Event → Option (Listener × DisconnectReason)
serve frame a events = run 8192 frame a.icy_requested (primed a) events
