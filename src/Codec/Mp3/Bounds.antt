-- ===== src/Codec/Mp3/Bounds.antt =====
-- crates/rustyice-codec/src/mp3.rs: the sizes that `mp3_frame_size` returns, and its agreement with
-- `Mp3Codec::probe`.
use rusty_ice.Prelude.{
  ℕ, ◌+◌, ◌*◌, ◌/◌, ◌≤◌, ◌<◌, ◌≡◌, inl, inr, some, List, [], ◌∷◌, arith, ◌==◌, Option-cases,
  if◌then◌else◌,
}
use rusty_ice.Core.Types.{CodecInfo}
use rusty_ice.Codec.Mp3.{
  mp3_frame_size, probe, sample_rate, table_at, mpeg1_l3_bitrates, mpeg2_l3_bitrates, padding_of,
  version_bits, sr_index, br_index, frame_bytes,
}

mpeg1_table_bounds : (i k : ℕ) → table_at mpeg1_l3_bitrates i ≡ some k → (32 ≤ k) × (k ≤ 320)
unfolding table_at
mpeg1_table_bounds i k e = ground arith

mpeg2_table_bounds : (i k : ℕ) → table_at mpeg2_l3_bitrates i ≡ some k → (8 ≤ k) × (k ≤ 160)
unfolding table_at
mpeg2_table_bounds i k e = ground arith

-- The sample rate is the divisor; each table has its own factor.
frame_bytes_bounds :
    (v i j k sr p : ℕ)
    → sample_rate v i ≡ some sr
    → table_at (if v == 3 then mpeg1_l3_bitrates else mpeg2_l3_bitrates) j ≡ some k
    → p < 2
    → (24 ≤ frame_bytes (v == 3) k sr p) × (frame_bytes (v == 3) k sr p ≤ 1441)
unfolding sample_rate
frame_bytes_bounds v i j k sr p e t hp =
    ground (arith, mpeg1_table_bounds j k, mpeg2_table_bounds j k)

-- A frame size is never less than 24 bytes nor more than 1441, whatever the four header bytes and
-- whatever follows them; so a reader that skips frames always moves forward.
pub mp3_frame_size_bounds :
    (header : List ℕ) (n : ℕ) → mp3_frame_size header ≡ some n → (24 ≤ n) × (n ≤ 1441)
unfolding mp3_frame_size
mp3_frame_size_bounds [] n e = ground arith
mp3_frame_size_bounds (b0 ∷ []) n e = ground arith
mp3_frame_size_bounds (b0 ∷ b1 ∷ []) n e = ground arith
mp3_frame_size_bounds (b0 ∷ b1 ∷ b2 ∷ []) n e = ground arith
mp3_frame_size_bounds (b0 ∷ b1 ∷ b2 ∷ b3 ∷ r) n e =
    let v = version_bits b1 in
    let i = sr_index b2 in
    let j = br_index b2 in
    let table = if v == 3 then mpeg1_l3_bitrates else mpeg2_l3_bitrates in
    elim (Option-cases (sample_rate v i)) [
      | inl e1 ↦ ground arith
      | inr (sr, e1) ↦ elim (Option-cases (table_at table j)) [
        | inl e2 ↦ ground arith
        | inr (k, e2) ↦
            ground (arith, frame_bytes_bounds v i j k sr (padding_of b2) e1 e2 (omega arith))
      ]
    ]

-- Where `probe` reports a bitrate, `mp3_frame_size` accepts the header, and its size is the MPEG 1
-- formula at the reported bitrate and sample rate.
pub mp3_frame_size-probe :
    (b0 b1 b2 b3 : ℕ) (rest : List ℕ) (info : CodecInfo) (kbps : ℕ)
    → probe (b0 ∷ b1 ∷ b2 ∷ b3 ∷ rest) ≡ some info
    → info.bitrate_kbps ≡ some kbps
    → mp3_frame_size (b0 ∷ b1 ∷ b2 ∷ b3 ∷ rest)
      ≡ some (144 * kbps * 1000 / info.sample_rate + padding_of b2)
unfolding probe mp3_frame_size
mp3_frame_size-probe b0 b1 b2 b3 rest info kbps e k = ground arith
