-- ===== src/Ingest/Run.antt =====
-- crates/rustyice-ingest/src/icecast.rs: `IcecastIngest` and its `run`, the loop that publishes. The
-- transcoder is an interface; what `select!` takes in each round is an event, and times are in
-- milliseconds. A transcoder that cannot be made ends `run` before its loop.
pub mod Sound
pub mod Passthrough
mod Tests
use rusty_ice.Prelude.{
  ◌==◌, ℕ, suc, ◌+◌, ◌-◌, ◌*◌, ◌/◌, Bool, true, false, not, ◌||◌, ◌&&◌, Option, none, some, List,
  [], ◌∷◌, ◌++◌, length, ltb, if◌then◌else◌, Checked, val, panic, ◌>>=◌,
}
use rusty_ice.Core.Types.{CodecId, codec_eq, StreamPacket, AudioPayload, encoded, SourceStats}
use rusty_ice.Core.Config.{TranscodeConfig, TranscodeFormat}
use rusty_ice.Codec.Mp3.Scan.{scan_bitrate_bps}
use rusty_ice.Codec.Vorbis.{scan_nominal_bitrate_bps}
use rusty_ice.Codec.OggHeaderCapture.{OggHeaderCapture, new, is_settled, header_bytes, push}

-- What the loop calls of a transcoder; `none` is an error.
pub record TranscodePipeline : Type 1 where
  pub State : Type 0
  pub push_chunk : State → List ℕ → Option (List ℕ) × State
  pub flush : State → Option (List ℕ)

-- `header_capture` tells whether there is a sink for captured headers.
pub record IcecastIngest : Type 0 where
  pub chunk_size : ℕ
  pub max_rate_bps : Option ℕ
  pub transcode : Option TranscodeConfig
  pub header_capture : Bool

unfoldable pub output_codec : IcecastIngest → CodecId → CodecId
output_codec ingest source_codec = elim ingest.transcode [
  | none ↦ source_codec
  | some tc ↦ elim tc.format [
    | TranscodeFormat.mp3 ↦ CodecId.mp3
    | TranscodeFormat.vorbis ↦ CodecId.vorbis
  ]
]

unfoldable pub transcode_output_bps : IcecastIngest → Option ℕ
transcode_output_bps ingest = elim ingest.transcode [
  | none ↦ none
  | some tc ↦ some (tc.bitrate_kbps * 1000 / 8)
]

-- How a pause of the pacing ends.
pub data Pause : Type 0 where
  slept pause_cancelled pause_aborted : Pause

-- What `select!` takes: a chunk, with the instant it is published at and how the pause after it ends
-- when so many bytes are paced at a rate, or the channel's end.
pub data Event : Type 0 where
  cancelled aborted : Event
  chunk : List ℕ → ℕ → (ℕ → ℕ → Pause) → Event
  closed : ℕ → Event

pub data Progress : Type 0 where
  running finished was_cancelled io_failed : Progress

-- `Bytes::is_empty`
unfoldable pub non_empty : List ℕ → Option (List ℕ)
non_empty [] = none
non_empty (b ∷ bs) = some (b ∷ bs)

unfoldable pub detected : CodecId → List ℕ → Checked (Option ℕ)
detected codec data' =
    if codec_eq codec CodecId.mp3
    then scan_bitrate_bps data'
    else if codec_eq codec CodecId.vorbis
    then scan_nominal_bitrate_bps data'
    else val none

module _ (P : TranscodePipeline) where
  -- The variables of the loop, what the header sink holds, and the packets published so far.
  pub record Loop : Type 0 where
    pub pipeline : Option P.State
    pub capture : Option OggHeaderCapture
    pub sink : Option (List ℕ)
    pub source_rate : Option ℕ
    pub source_rate_locked : Bool
    pub output_bytes : ℕ
    pub bytes_received : ℕ
    pub published : List StreamPacket

  -- `stats.packets_published`
  abbrev pub packets_published : Loop → ℕ
  packets_published l = length l.published

  unfoldable pub start : IcecastIngest → CodecId → Option P.State → Loop
  start ingest codec pipeline = record {
    pipeline = pipeline;
    capture =
        if codec_eq (output_codec ingest codec) CodecId.vorbis && ingest.header_capture
        then some new
        else none;
    sink = none;
    source_rate = ingest.max_rate_bps;
    source_rate_locked = elim ingest.max_rate_bps [ none ↦ false | some _ ↦ true ];
    output_bytes = 0;
    bytes_received = 0;
    published = [];
  }

  -- `bus.publish` of a packet that is numbered by those before it.
  unfoldable pub publish : CodecId → ℕ → List ℕ → Loop → Loop
  publish codec pts data' l = record l {
    published =
        l.published
        ++ (record {
          payload = encoded (record { codec = codec; bytes = data' });
          pts = pts;
          sequence = packets_published l;
        }
            ∷ []);
  }

  unfoldable pub lock_rate : CodecId → List ℕ → Loop → Checked Loop
  lock_rate codec data' l = if l.source_rate_locked then val l else do
    found ← detected codec data'
    val (elim found [
      | none ↦ l
      | some bps ↦ record l { source_rate = some bps; source_rate_locked = true }
    ])

  -- The data to publish of a chunk, and the loop with the transcoder's new state.
  unfoldable pub transcoded : List ℕ → Loop → Option (List ℕ) × Loop
  transcoded data' l = elim l.pipeline [
    | none ↦ (some data', l)
    | some p ↦
        let (out, p') = P.push_chunk p data' in
        let l' = record l { pipeline = some p' } in
        elim out [ none ↦ (none, l') | some b ↦ (non_empty b, l') ]
  ]

  -- The header capture is fed until it is settled.
  unfoldable pub capture_headers : List ℕ → Loop → Checked Loop
  capture_headers data' l = elim l.capture [
    | none ↦ val l
    | some c ↦ do
      c' ← push c data'
      val (
          if is_settled c'
          then record l {
            capture = none;
            sink = elim (header_bytes c') [ none ↦ l.sink | some headers ↦ some headers ];
          }
          else record l { capture = some c' })
  ]

  unfoldable pub publish_chunk : CodecId → ℕ → Option (List ℕ) → Loop → Checked Loop
  publish_chunk codec pts none l = val l
  publish_chunk codec pts (some data') l = do
    l' ← capture_headers data' (record l { output_bytes = l.output_bytes + length data' })
    val (publish codec pts data' l')

  -- The bytes and the rate that the pause goes by.
  unfoldable pub pacing : IcecastIngest → Loop → ℕ × Option ℕ
  pacing ingest l = elim (transcode_output_bps ingest) [
    | none ↦ (l.bytes_received, l.source_rate)
    | some obps ↦
        if ltb 0 l.output_bytes
        then (l.output_bytes, some obps)
        else (l.bytes_received, l.source_rate)
  ]

  -- `Duration::from_secs_f64` panics on a quotient by 0, which is not finite.
  unfoldable pub pause_after : IcecastIngest → (ℕ → ℕ → Pause) → Loop → Checked Pause
  pause_after ingest pause l = elim (pacing ingest l).1 [
    | none ↦ val slept
    | some bps ↦ if bps == 0 then panic else val (pause (pacing ingest l).0 bps)
  ]

  unfoldable pub take_chunk : IcecastIngest → CodecId → List ℕ → ℕ → Loop → Checked Loop
  take_chunk ingest codec data' pts l = do
    locked ← lock_rate codec data' l
    let received = record locked { bytes_received = locked.bytes_received + length data' }
    publish_chunk (output_codec ingest codec) pts (transcoded data' received).0
        (transcoded data' received).1

  -- The tail of the transcoder when the source is gone.
  unfoldable pub flush_tail : CodecId → ℕ → Loop → Loop
  flush_tail codec pts l = elim l.pipeline [
    | none ↦ l
    | some p ↦ elim (P.flush p) [
      | none ↦ l
      | some tail ↦ elim (non_empty tail) [ none ↦ l | some b ↦ publish codec pts b l ]
    ]
  ]

  unfoldable pub run : IcecastIngest → CodecId → Loop → List Event → Checked (Progress × Loop)
  run ingest codec l [] = val (running, l)
  run ingest codec l (cancelled ∷ es) = val (was_cancelled, l)
  run ingest codec l (aborted ∷ es) = val (io_failed, l)
  run ingest codec l (closed pts ∷ es) =
      val (finished, flush_tail (output_codec ingest codec) pts l)
  run ingest codec l (chunk data' pts pause ∷ es) = do
    l' ← take_chunk ingest codec data' pts l
    let rest = run ingest codec l' es
    ended ← pause_after ingest pause l'
    elim ended [
      | slept ↦ rest
      | pause_cancelled ↦ val (was_cancelled, l')
      | pause_aborted ↦ val (io_failed, l')
    ]
