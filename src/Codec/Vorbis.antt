-- ===== src/Codec/Vorbis.antt =====
-- crates/rustyice-codec/src/vorbis.rs: Ogg pages, the identification header and the bitrate scan.
-- Indexing and slicing are checked, so that a read out of bounds would show as `panic`.
pub mod Page
pub mod Identification
use Prim.Native.Nat.{compare}
use rusty_ice.Prelude.{
  ℕ, zero, suc, ◌+◌, ◌-◌, ◌*◌, ◌/◌, ◌^◌, Bool, true, false, not, ◌&&◌, Option, none, some, List, [],
  ◌∷◌, Checked, val, ◌>>=◌, index, slice, slice_from, length, get_elem?, take, bit_and, ltb, leb,
  ◌==◌, if◌then◌else◌, bytes_eq, sum,
}
use rusty_ice.Core.Types.{CodecId, CodecInfo}

abbrev pub ogg_magic : List ℕ
ogg_magic = b'O' ∷ b'g' ∷ b'g' ∷ b'S' ∷ []

abbrev pub vorbis_ident : List ℕ
vorbis_ident = 1 ∷ b'v' ∷ b'o' ∷ b'r' ∷ b'b' ∷ b'i' ∷ b's' ∷ []

unfoldable pub ogg_page_size : List ℕ → Checked (Option ℕ)
ogg_page_size header = if ltb (length header) 27 then val none else do
  magic ← slice header 0 4
  if not (bytes_eq magic ogg_magic) then val none else do
    n_segments ← index header 26
    if ltb (length header) (27 + n_segments) then val none else do
      lacing ← slice header 27 (27 + n_segments)
      val (some (27 + n_segments + sum lacing))

-- u32::from_le_bytes
abbrev pub le_u32 : ℕ → ℕ → ℕ → ℕ → ℕ
le_u32 a b c d = a + b * 2 ^ 8 + c * 2 ^ 16 + d * 2 ^ 24

-- `i32::from_le_bytes` of the same four bytes is positive, and then it is the same number.
abbrev pub is_positive_i32 : ℕ → Bool
is_positive_i32 w = ltb 0 w && ltb w (2 ^ 31)

-- `VorbisCodec::probe` from `let body = &header[header_len..]` on.
unfoldable pub probe_body : List ℕ → Checked (Option CodecInfo)
probe_body body = do
  ident ← slice body 0 7
  if not (bytes_eq ident vorbis_ident) then val none else do
    v0 ← index body 7
    v1 ← index body 8
    v2 ← index body 9
    v3 ← index body 10
    if not (le_u32 v0 v1 v2 v3 == 0) then val none else do
      channels ← index body 11
      if channels == 0 then val none else do
        s0 ← index body 12
        s1 ← index body 13
        s2 ← index body 14
        s3 ← index body 15
        if le_u32 s0 s1 s2 s3 == 0 then val none else do
          n0 ← index body 20
          n1 ← index body 21
          n2 ← index body 22
          n3 ← index body 23
          let nominal = le_u32 n0 n1 n2 n3
          val (
              some (record {
                id = CodecId.vorbis;
                sample_rate = le_u32 s0 s1 s2 s3;
                channels = channels;
                bitrate_kbps = if is_positive_i32 nominal then some (nominal / 1000) else none;
              }))

-- `VorbisCodec::probe`
unfoldable pub probe : List ℕ → Checked (Option CodecInfo)
probe header = if ltb (length header) 27 then val none else do
  magic ← slice header 0 4
  if not (bytes_eq magic ogg_magic) then val none else do
    header_type ← index header 5
    if bit_and header_type 0x02 == 0 then val none else do
      n_segments ← index header 26
      let header_len = 27 + n_segments
      if ltb (length header) (header_len + 30)
          then val none
          else do body ← slice_from header header_len; probe_body body

-- The rounds left of `for i in 0..=end`; `.get(..4)?` leaves the function on a short suffix.
unfoldable pub scan_loop : List ℕ → ℕ → ℕ → Checked (Option ℕ)
scan_loop xs zero i = val none
scan_loop xs (suc n) i =
    let rest = scan_loop xs n (suc i) in
    do
      suffix ← slice_from xs i
      if ltb (length suffix) 4
          then val none
          else if not (bytes_eq (take 4 suffix) ogg_magic)
          then rest
          else do
            info ← probe suffix
            elim info [
              | none ↦ rest
              | some found ↦ elim found.bitrate_kbps [
                | none ↦ rest
                | some kbps ↦ val (some (kbps * 1000 / 8))
              ]
            ]

unfoldable pub scan_nominal_bitrate_bps : List ℕ → Checked (Option ℕ)
scan_nominal_bitrate_bps xs = scan_loop xs (length xs - 4 + 1) 0
