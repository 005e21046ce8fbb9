-- ===== src/Ingest/Run/Tests.antt =====
-- The results on `run` at a concrete source.
use rusty_ice.Prelude.{
  ℕ, ◌≡◌, true, none, some, List, [], ◌∷◌, map, val, ascii, refl, ◌⊎◌, panic, arith,
}
use rusty_ice.Core.Types.{CodecId}
use rusty_ice.Core.Config.{TranscodeFormat}
use rusty_ice.Ingest.Run.{
  TranscodePipeline, IcecastIngest, output_codec, Progress, finished, Loop, start, run,
}
use rusty_ice.Ingest.Run.Sound.{IsSound, IsZeroPaced, start-IsSound, run-IsSound}
use rusty_ice.Ingest.Run.Passthrough.{
  undisturbed, payload_of, total, start-IsZeroPaced, run-passthrough,
}

-- A transcoder that buffers one chunk: it gives out each when the next is pushed.
abbrev delayed : TranscodePipeline
delayed = record {
  State = List ℕ;
  push_chunk = λ held bytes. (some held, bytes);
  flush = λ held. some held;
}

abbrev ingest : IcecastIngest
ingest = record {
  chunk_size = 4096;
  max_rate_bps = some 16000;
  transcode = none;
  header_capture = true;
}

abbrev vorbis_ingest : IcecastIngest
vorbis_ingest = record ingest {
  transcode =
      some (record { format = TranscodeFormat.vorbis; sample_rate = 44100; bitrate_kbps = 96 });
}

abbrev chunks : List (List ℕ × ℕ)
chunks = (ascii "OggS", 5) ∷ (ascii "abc", 9) ∷ []

run-IsSound_example :
    ((p : Progress) × (l' : Loop delayed) × (run delayed vorbis_ingest CodecId.mp3
          (start delayed vorbis_ingest CodecId.mp3 (some []))
          (undisturbed chunks 12)
        ≡ val (p, l'))
      × IsSound delayed l')
    ⊎ ((run delayed vorbis_ingest CodecId.mp3
            (start delayed vorbis_ingest CodecId.mp3 (some []))
            (undisturbed chunks 12)
          ≡ panic)
        × IsZeroPaced delayed vorbis_ingest CodecId.mp3
            (start delayed vorbis_ingest CodecId.mp3 (some []))
            (undisturbed chunks 12))
run-IsSound_example =
    run-IsSound delayed vorbis_ingest CodecId.mp3
      (start delayed vorbis_ingest CodecId.mp3 (some [])) (undisturbed chunks 12)
      (start-IsSound delayed vorbis_ingest CodecId.mp3 (some []))

run-passthrough_example :
    (l' : Loop delayed) × (run delayed ingest CodecId.vorbis
        (start delayed ingest CodecId.vorbis none)
        (undisturbed chunks 12)
      ≡ val (finished, l'))
    × (l'.bytes_received ≡ total chunks)
    × (map (λ p. p.payload) l'.published
        ≡ map (λ c. payload_of (output_codec ingest CodecId.vorbis) c.0) chunks)
run-passthrough_example = run-passthrough delayed ingest CodecId.vorbis chunks 12 (
    start-IsZeroPaced delayed ingest CodecId.vorbis 16000 (undisturbed chunks 12)
      (λ e. absurd (omega (arith, e))) refl refl)
