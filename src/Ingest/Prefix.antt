-- ===== src/Ingest/Prefix.antt =====
-- crates/rustyice-ingest/src/icecast.rs: `strip_mp3_prefix`. A source is the list of what `read_one`
-- returns, whose end is the end of the stream; `stop` is a cancellation or an error.
pub mod Reading
pub mod Suffix
use rusty_ice.Prelude.{
  ℕ, zero, suc, ◌+◌, ◌-◌, ◌*◌, ◌^◌, Bool, true, false, not, Option, none, some, List, [], ◌∷◌, ◌++◌,
  length, take, drop, leb, ltb, ◌==◌, if◌then◌else◌, Checked, val, panic, ◌>>=◌, index, slice,
  slice_from, low_bits, bytes_eq,
}
use rusty_ice.Codec.Mp3.Scan.{detect_xing_frame_end}

pub data ReadOutcome : Type 0 where
  bytes : List ℕ → ReadOutcome
  stop : ReadOutcome

-- The size of the tag, or 0; the four size bytes have seven bits each.
unfoldable pub parse_id3v2_total : List ℕ → Checked ℕ
parse_id3v2_total data' = if ltb (length data') 10 then val 0 else do
  magic ← slice data' 0 3
  if not (bytes_eq magic (b'I' ∷ b'D' ∷ b'3' ∷ [])) then val 0 else do
    b6 ← index data' 6
    b7 ← index data' 7
    b8 ← index data' 8
    b9 ← index data' 9
    val (
        10
        + (low_bits b6 7 * 2 ^ 21 + low_bits b7 7 * 2 ^ 14 + low_bits b8 7 * 2 ^ 7 + low_bits b9 7))

-- `pending.drain(..end)`
unfoldable pub strip_xing_in_place : List ℕ → Checked (List ℕ)
strip_xing_in_place pending = do
  found ← detect_xing_frame_end pending
  elim found [ none ↦ val pending | some end ↦ slice_from pending end ]

unfoldable pub flush_remaining : List ℕ → List (List ℕ)
flush_remaining [] = []
flush_remaining (b ∷ bs) = (b ∷ bs) ∷ []

-- A loop that reads until it has `n` bytes.
pub data Collected : Type 0 where
  ready : List ℕ → List ReadOutcome → Collected
  ended : List ℕ → Collected
  stopped : Collected

unfoldable pub collect : ℕ → List ℕ → List ReadOutcome → Collected
collect n head [] = if ltb (length head) n then ended head else ready head []
collect n head (stop ∷ reads) = if ltb (length head) n then stopped else ready head (stop ∷ reads)
collect n head (bytes bs ∷ reads) =
    let rest = collect n (head ++ bs) reads in
    if ltb (length head) n then rest else ready head (bytes bs ∷ reads)

-- The loop over the rest of the tag; `none` where the stream ends or stops first.
unfoldable pub skip : ℕ → List ReadOutcome → Option (List ℕ × List ReadOutcome)
skip zero reads = some ([], reads)
skip (suc n) [] = none
skip (suc n) (stop ∷ reads) = none
skip (suc n) (bytes bs ∷ reads) =
    let rest = skip (suc n - length bs) reads in
    if leb (length bs) (suc n) then rest else some (drop (suc n) bs, reads)

unfoldable pub after_tag : ℕ → List ℕ → List ReadOutcome → Option (List ℕ × List ReadOutcome)
after_tag id3_total head reads =
    if id3_total == 0
    then some (head, reads)
    else if leb id3_total (length head)
    then some (drop id3_total head, reads)
    else skip (id3_total - length head) reads

-- The third and the fourth phase. The results are the chunks sent and the reads that are left.
unfoldable pub forward : Collected → Checked (List (List ℕ) × List ReadOutcome)
forward stopped = val ([], [])
forward (ended pending) = strip_xing_in_place pending >>= λ p. val (flush_remaining p, [])
forward (ready pending reads) = strip_xing_in_place pending >>= λ p. val (flush_remaining p, reads)

unfoldable pub tagged : Collected → Checked (List (List ℕ) × List ReadOutcome)
tagged stopped = val ([], [])
tagged (ended head) = val (flush_remaining head, [])
tagged (ready head reads) = parse_id3v2_total head >>= λ id3_total.
    elim (after_tag id3_total head reads) [
      | none ↦ val ([], [])
      | some (pending, left) ↦ forward (collect 2048 pending left)
    ]

unfoldable pub strip_mp3_prefix : List ReadOutcome → Checked (List (List ℕ) × List ReadOutcome)
strip_mp3_prefix reads = tagged (collect 10 [] reads)
