-- ===== src/Ingest/Reader.antt =====
-- crates/rustyice-ingest/src/icecast.rs: `drain_reader`, the task that reads a source. A read that
-- gives bytes gives at least one.
use rusty_ice.Prelude.{
  ℕ, ◌≡◌, refl, sym, ap, ◌∙◌, inl, inr, List, [], ◌∷◌, ◌++◌, drop, flatten, Checked, val, ◌>>=◌,
  if◌then◌else◌, arith, append_assoc, Bool-cases,
}
use rusty_ice.Core.Types.{CodecId, codec_eq}
use rusty_ice.Ingest.Prefix.{ReadOutcome, bytes, stop, parse_id3v2_total, strip_mp3_prefix}
use rusty_ice.Ingest.Prefix.Reading.{stream, IsSteady}
use rusty_ice.Ingest.Prefix.Suffix.{Ends, strip_mp3_prefix-stream}

-- The loop: the chunks it sends on until the source ends, is cancelled or fails.
unfoldable pub drain_loop : List ReadOutcome → List (List ℕ)
drain_loop [] = []
drain_loop (stop ∷ reads) = []
drain_loop (bytes bs ∷ reads) = bs ∷ drain_loop reads

unfoldable pub drain_reader : CodecId → List ReadOutcome → Checked (List (List ℕ))
drain_reader codec reads =
    if codec_eq codec CodecId.mp3
    then (strip_mp3_prefix reads >>= λ (sent, rest). val (sent ++ drain_loop rest))
    else val (drain_loop reads)

flatten-drain_loop : (reads : List ReadOutcome) → flatten (drain_loop reads) ≡ stream reads
unfolding drain_loop flatten
flatten-drain_loop [] = refl
flatten-drain_loop (stop ∷ reads) = refl
flatten-drain_loop (bytes bs ∷ reads) = ap (λ z. bs ++ z) (flatten-drain_loop reads)

flatten-append : (xs ys : List (List ℕ)) → flatten (xs ++ ys) ≡ flatten xs ++ flatten ys
unfolding flatten
flatten-append [] ys = refl
flatten-append (x ∷ xs) ys =
    ap (λ z. x ++ z) (flatten-append xs ys) ∙ sym (append_assoc x (flatten xs) (flatten ys))

-- What the publisher gets of a stream: all of it, or for MP3 what is behind its tag and behind the end
-- of a frame that starts no later than the rest.
abbrev pub IsStripped : List ℕ → List (List ℕ) → Type 0
IsStripped all chunks =
    (id3_total : ℕ) × (end : ℕ) × (pending : List ℕ) × (tail : List ℕ) × (parse_id3v2_total all
      ≡ val id3_total)
    × (drop id3_total all ≡ pending ++ tail)
    × Ends pending end
    × (flatten chunks ≡ drop end (drop id3_total all))

abbrev pub IsForwarded : CodecId → List ℕ → List (List ℕ) → Type 0
IsForwarded codec all chunks =
    if codec_eq codec CodecId.mp3 then IsStripped all chunks else flatten chunks ≡ all

-- Of a source that is neither cancelled nor fails, the publisher gets the whole stream, in order and
-- however the reads cut it; an MP3 stream loses its ID3v2 tag, whose total size is 0 where there is
-- none, and then at most the bytes up to the end of an MP3 frame at the front of what follows. Nothing
-- panics.
pub drain_reader-stream :
    (codec : CodecId) (reads : List ReadOutcome)
    → IsSteady reads
    → (chunks : List (List ℕ)) × (drain_reader codec reads ≡ val chunks)
      × IsForwarded codec (stream reads) chunks
unfolding drain_reader
drain_reader-stream codec reads s = elim (Bool-cases (codec_eq codec CodecId.mp3)) [
  | inr other ↦ (drain_loop reads, ground (arith, other), rw other (flatten-drain_loop reads))
  | inl mp3 ↦
      let (n, tag, (sent, rest, end, pending, tail, done, all, split, ends, _)) =
        strip_mp3_prefix-stream reads s in
      (
        sent ++ drain_loop rest,
        ground (arith, mp3, done),
        rw mp3 (
          n,
          end,
          pending,
          tail,
          tag,
          split,
          ends,
          flatten-append sent (drain_loop rest)
              ∙ (ap (λ z. flatten sent ++ z) (flatten-drain_loop rest) ∙ all),
        ),
      )
]
