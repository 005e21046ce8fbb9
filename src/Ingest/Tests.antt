-- ===== src/Ingest/Tests.antt =====
-- A run of the prefix stripper, and the result about it at a concrete input.
use rusty_ice.Prelude.{ℕ, ◌≡◌, ◌++◌, List, [], ◌∷◌, ascii, val}
use rusty_ice.Ingest.Prefix.{ReadOutcome, bytes}
use rusty_ice.Ingest.Prefix.Reading.{stream}
use rusty_ice.Core.Types.{CodecId}
use rusty_ice.Ingest.Reader.{drain_reader, IsForwarded, drain_reader-stream}

-- An empty tag, cut in the middle, and five bytes behind it.
abbrev tagged_reads : List ReadOutcome
tagged_reads =
    bytes (ascii "ID3" ++ (4 ∷ 0 ∷ 0 ∷ []))
    ∷ bytes (0 ∷ 0 ∷ 0 ∷ 2 ∷ 9 ∷ [])
    ∷ bytes (9 ∷ 1 ∷ 2 ∷ 3 ∷ [])
    ∷ []

drain_reader-stream_example :
    (chunks : List (List ℕ)) × (drain_reader CodecId.mp3 tagged_reads ≡ val chunks)
    × IsForwarded CodecId.mp3 (stream tagged_reads) chunks
drain_reader-stream_example = drain_reader-stream CodecId.mp3 tagged_reads tt
