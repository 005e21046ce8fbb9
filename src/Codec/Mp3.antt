-- ===== src/Codec/Mp3.antt =====
-- crates/rustyice-codec/src/mp3.rs: frame headers, the bitrate scan and the Xing/Info/VBRI tag.
-- A buffer is a list of bytes. The length test on a header is the pattern of four bytes.
pub mod Scan
pub mod Bounds
pub mod FirstFrame
pub mod Tag
use rusty_ice.Prelude.{
  ℕ, zero, suc, ◌+◌, ◌-◌, ◌*◌, ◌/◌, Bool, true, false, not, ◌&&◌, ◌||◌, Option, none, some, List,
  [], ◌∷◌, Checked, val, ◌>>=◌, index, slice, slice_from, length, get_elem?, bit_and, shr, low_bits,
  ltb, ◌==◌, if◌then◌else◌,
}
use rusty_ice.Core.Types.{CodecId, CodecInfo}

abbrev pub mpeg2_l3_bitrates : List (Option ℕ)
mpeg2_l3_bitrates =
    none
    ∷ some 8
    ∷ some 16
    ∷ some 24
    ∷ some 32
    ∷ some 40
    ∷ some 48
    ∷ some 56
    ∷ some 64
    ∷ some 80
    ∷ some 96
    ∷ some 112
    ∷ some 128
    ∷ some 144
    ∷ some 160
    ∷ none
    ∷ []

abbrev pub mpeg1_l3_bitrates : List (Option ℕ)
mpeg1_l3_bitrates =
    none
    ∷ some 32
    ∷ some 40
    ∷ some 48
    ∷ some 56
    ∷ some 64
    ∷ some 80
    ∷ some 96
    ∷ some 112
    ∷ some 128
    ∷ some 160
    ∷ some 192
    ∷ some 224
    ∷ some 256
    ∷ some 320
    ∷ none
    ∷ []

abbrev flatten_option : Option (Option ℕ) → Option ℕ
flatten_option none = none
flatten_option (some o) = o

-- TABLE[i], for a 4-bit index into one of the tables of 16 entries.
unfoldable pub table_at : List (Option ℕ) → ℕ → Option ℕ
table_at table i = flatten_option (get_elem? table i)

-- The version is 0 for MPEG 2.5, 2 for MPEG 2 and 3 for MPEG 1; 1 is reserved.
unfoldable pub sample_rate : ℕ → ℕ → Option ℕ
sample_rate version i =
    if version == 3 && i == 0
    then some 44100
    else if version == 3 && i == 1
    then some 48000
    else if version == 3 && i == 2
    then some 32000
    else if version == 2 && i == 0
    then some 22050
    else if version == 2 && i == 1
    then some 24000
    else if version == 2 && i == 2
    then some 16000
    else if version == 0 && i == 0
    then some 11025
    else if version == 0 && i == 1
    then some 12000
    else if version == 0 && i == 2
    then some 8000
    else none

-- data[i] == 0xFF && (data[i + 1] & 0xE0) == 0xE0
unfoldable pub is_sync : ℕ → ℕ → Bool
is_sync b0 b1 = b0 == 0xff && bit_and b1 0xe0 == 0xe0

abbrev pub version_bits : ℕ → ℕ
version_bits b1 = low_bits (shr b1 3) 2

abbrev pub layer_bits : ℕ → ℕ
layer_bits b1 = low_bits (shr b1 1) 2

abbrev pub sr_index : ℕ → ℕ
sr_index b2 = low_bits (shr b2 2) 2

abbrev pub br_index : ℕ → ℕ
br_index b2 = low_bits (shr b2 4) 4

abbrev pub padding_of : ℕ → ℕ
padding_of b2 = low_bits (shr b2 1) 1

abbrev pub frame_bytes : Bool → ℕ → ℕ → ℕ → ℕ
frame_bytes mpeg1 kbps sr padding =
    if mpeg1 then 144 * kbps * 1000 / sr + padding else 72 * kbps * 1000 / sr + padding

unfoldable pub mp3_frame_size : List ℕ → Option ℕ
unfolding is_sync
mp3_frame_size (b0 ∷ b1 ∷ b2 ∷ b3 ∷ _) =
    let version = version_bits b1 in
    let layer = layer_bits b1 in
    let mpeg1 = version == 3 in
    let table = if mpeg1 then mpeg1_l3_bitrates else mpeg2_l3_bitrates in
    if not (is_sync b0 b1)
    then none
    else if version == 1 || layer == 0 || not (layer == 1)
    then none
    else elim (sample_rate version (sr_index b2)) [
      | none ↦ none
      | some sr ↦ elim (table_at table (br_index b2)) [
        | none ↦ none
        | some kbps ↦ some (frame_bytes mpeg1 kbps sr (padding_of b2))
      ]
    ]
mp3_frame_size _ = none

-- `Mp3Codec::probe`
unfoldable pub probe : List ℕ → Option CodecInfo
unfolding is_sync
probe (b0 ∷ b1 ∷ b2 ∷ b3 ∷ _) =
    let version = version_bits b1 in
    let layer = layer_bits b1 in
    if not (is_sync b0 b1)
    then none
    else if version == 1 || layer == 0
    then none
    else if not (layer == 1)
    then none
    else elim (sample_rate version (sr_index b2)) [
      | none ↦ none
      | some sr ↦ some (record {
        id = CodecId.mp3;
        sample_rate = sr;
        channels = if shr b3 6 == 3 then 1 else 2;
        bitrate_kbps = if version == 3 then table_at mpeg1_l3_bitrates (br_index b2) else none;
      })
    ]
probe _ = none
