-- ===== src/Codec/Mp3/Scan.antt =====
-- crates/rustyice-codec/src/mp3.rs: the two loops over a buffer. `data[i..]` and the other accesses
-- are checked, so that a read out of bounds would show as `panic`.
use rusty_ice.Prelude.{
  ℕ, zero, suc, ◌+◌, ◌-◌, ◌*◌, ◌/◌, Bool, not, ◌&&◌, ◌||◌, Option, none, some, List, [], ◌∷◌,
  Checked, val, ◌>>=◌, index, slice, slice_from, length, bytes_eq, ltb, ◌==◌, if◌then◌else◌,
}
use rusty_ice.Core.Types.{CodecInfo}
use rusty_ice.Codec.Mp3.{is_sync, probe, version_bits, padding_of}

-- kbps * 1000 / 8
abbrev pub bytes_per_second : ℕ → ℕ
bytes_per_second kbps = kbps * 1000 / 8

abbrev pub bitrate_of : Option CodecInfo → Option ℕ
bitrate_of none = none
bitrate_of (some info) = info.bitrate_kbps

-- The rounds left of `for i in 0..end`, with `i` the position of this round.
unfoldable pub scan_loop : List ℕ → ℕ → ℕ → Checked (Option ℕ)
scan_loop xs zero i = val none
scan_loop xs (suc n) i =
    let rest = scan_loop xs n (suc i) in
    do
      b0 ← index xs i
      b1 ← index xs (suc i)
      if not (is_sync b0 b1) then rest else do
        header ← slice_from xs i
        elim (bitrate_of (probe header)) [
          | none ↦ rest
          | some kbps ↦ val (some (bytes_per_second kbps))
        ]

unfoldable pub scan_bitrate_bps : List ℕ → Checked (Option ℕ)
scan_bitrate_bps xs = scan_loop xs (length xs - 3) 0

-- b"Xing", b"Info" and b"VBRI"
unfoldable pub is_tag : List ℕ → Bool
is_tag t =
    bytes_eq t (b'X' ∷ b'i' ∷ b'n' ∷ b'g' ∷ [])
    || bytes_eq t (b'I' ∷ b'n' ∷ b'f' ∷ b'o' ∷ [])
    || bytes_eq t (b'V' ∷ b'B' ∷ b'R' ∷ b'I' ∷ [])

-- The header and the side information in front of the tag.
unfoldable pub tag_offset : Bool → ℕ → Option ℕ
tag_offset mpeg1 channels =
    if mpeg1 && channels == 2
    then some (4 + 32)
    else if (mpeg1 && channels == 1) || (not mpeg1 && channels == 2)
    then some (4 + 17)
    else if not mpeg1 && channels == 1
    then some (4 + 9)
    else none

-- From `let bitrate = info.bitrate_kbps?` to the end of the round.
unfoldable pub tagged_end : List ℕ → ℕ → Bool → CodecInfo → ℕ → Option ℕ
tagged_end xs sync mpeg1 info b2 = elim info.bitrate_kbps [
  | none ↦ none
  | some kbps ↦
      let bitrate = kbps * 1000 in
      let padding = padding_of b2 in
      let frame_length =
        if mpeg1
        then 144 * bitrate / info.sample_rate + padding
        else 72 * bitrate / info.sample_rate + padding in
      let frame_end = sync + frame_length in
      if ltb (length xs) frame_end then none else some frame_end
]

-- A round whose two bytes are a sync word: every branch returns.
unfoldable pub detect_at : List ℕ → ℕ → List ℕ → CodecInfo → Checked (Option ℕ)
detect_at xs sync header info = do
  b1 ← index header 1
  let mpeg1 = version_bits b1 == 3
  elim (tag_offset mpeg1 info.channels) [
    | none ↦ val none
    | some offset ↦
        let tag_start = sync + offset in
        if ltb (length xs) (tag_start + 4) then val none else do
          tag ← slice xs tag_start (tag_start + 4)
          if not (is_tag tag)
              then val none
              else do b2 ← index header 2; val (tagged_end xs sync mpeg1 info b2)
  ]

unfoldable pub detect_loop : List ℕ → ℕ → ℕ → Checked (Option ℕ)
detect_loop xs zero sync = val none
detect_loop xs (suc n) sync =
    let rest = detect_loop xs n (suc sync) in
    do
      b0 ← index xs sync
      b1 ← index xs (suc sync)
      if not (is_sync b0 b1) then rest else do
        header ← slice_from xs sync
        elim (probe header) [ none ↦ val none | some info ↦ detect_at xs sync header info ]

unfoldable pub detect_xing_frame_end : List ℕ → Checked (Option ℕ)
detect_xing_frame_end xs = detect_loop xs (length xs - 3) 0
