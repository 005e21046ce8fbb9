-- ===== src/Codec/Vorbis/Identification.antt =====
-- crates/rustyice-codec/src/vorbis.rs: `VorbisCodec::probe` on the identification header, and the
-- scan for the first one.
use rusty_ice.Prelude.{
  ℕ, zero, suc, ◌+◌, ◌-◌, ◌/◌, ◌%◌, ◌^◌, ◌≤◌, ◌<◌, ◌≡◌, ◌≢◌, inl, inr, false, some, List, [], ◌∷◌,
  ◌++◌, arith, val, panic, length, drop, index, slice, slice_from, index-val, slice-val,
  slice_from-val, length-drop, length-append, bit_and, Bool-cases, ltb, ◌==◌, get_elem?_prefix,
  drop_prefix, append_assoc,
}
use rusty_ice.Core.Types.{CodecId, CodecInfo}
use rusty_ice.Codec.Vorbis.{
  probe, probe_body, scan_loop, scan_nominal_bitrate_bps, ogg_magic, vorbis_ident, le_u32,
}

-- u32::to_le_bytes
abbrev pub to_le_bytes : ℕ → List ℕ
to_le_bytes w = w % 2 ^ 8 ∷ w / 2 ^ 8 % 2 ^ 8 ∷ w / 2 ^ 16 % 2 ^ 8 ∷ w / 2 ^ 24 % 2 ^ 8 ∷ []

le_u32-to_le_bytes :
    (w : ℕ)
    → w < 2 ^ 32
    → le_u32 (w % 2 ^ 8) (w / 2 ^ 8 % 2 ^ 8) (w / 2 ^ 16 % 2 ^ 8) (w / 2 ^ 24 % 2 ^ 8) ≡ w
le_u32-to_le_bytes w h = omega arith

probe_body-ne-panic : (body : List ℕ) → 30 ≤ length body → probe_body body ≢ panic
unfolding probe_body
probe_body-ne-panic body h p =
    let (v0, i7) = index-val body 7 (omega arith) in
    let (v1, i8) = index-val body 8 (omega arith) in
    let (v2, i9) = index-val body 9 (omega arith) in
    let (v3, i10) = index-val body 10 (omega arith) in
    let (c, i11) = index-val body 11 (omega arith) in
    let (s0, i12) = index-val body 12 (omega arith) in
    let (s1, i13) = index-val body 13 (omega arith) in
    let (s2, i14) = index-val body 14 (omega arith) in
    let (s3, i15) = index-val body 15 (omega arith) in
    let (n0, i20) = index-val body 20 (omega arith) in
    let (n1, i21) = index-val body 21 (omega arith) in
    let (n2, i22) = index-val body 22 (omega arith) in
    let (n3, i23) = index-val body 23 (omega arith) in
    ground (arith, slice-val body 0 7, i7, i8, i9, i10, i11, i12, i13, i14, i15, i20, i21, i22, i23)

-- `VorbisCodec::probe` never reads out of bounds: its length tests cover every field that it reads.
pub probe-ne-panic : (header : List ℕ) → probe header ≢ panic
unfolding probe
probe-ne-panic header p = elim (Bool-cases (ltb (length header) 27)) [
  | inl short ↦ ground arith
  | inr long ↦
      let (t, i5) = index-val header 5 (ground arith) in
      let (n, i26) = index-val header 26 (ground arith) in
      ground (
        arith,
        slice-val header 0 4,
        i5,
        i26,
        slice_from-val header (27 + n),
        probe_body-ne-panic (drop (27 + n) header),
        length-drop (27 + n) header,
      )
]

scan_loop-ne-panic : (xs : List ℕ) (n i : ℕ) → i + n ≤ length xs + 1 → scan_loop xs n i ≢ panic
unfolding scan_loop
scan_loop-ne-panic xs zero i h = λ e. cc
scan_loop-ne-panic xs (suc n) i h =
    let ih = scan_loop-ne-panic xs n (suc i) (omega arith) in
    let s = slice_from-val xs i (omega arith) in
    let p = probe-ne-panic (drop i xs) in ground (arith, ih, s, p)

-- `scan_nominal_bitrate_bps` never reads out of bounds, the last, short rounds of its inclusive
-- range included.
pub scan_nominal_bitrate_bps-ne-panic : (xs : List ℕ) → scan_nominal_bitrate_bps xs ≢ panic
unfolding scan_nominal_bitrate_bps
scan_nominal_bitrate_bps-ne-panic xs = scan_loop-ne-panic xs (length xs - 4 + 1) 0 (omega arith)

-- The identification packet of the Vorbis I specification, up to its nominal bitrate, and what
-- follows it.
pub record Identification : Type 0 where
  pub channels : ℕ
  pub sample_rate : ℕ
  pub bitrate_max : ℕ
  pub bitrate_nominal : ℕ
  pub tail : List ℕ

pub record IsIdentification (p : Identification) : Type 0 where
  pub some_channels : 0 < p.channels
  pub rate_pos : 0 < p.sample_rate
  pub rate_word : p.sample_rate < 2 ^ 32
  pub nominal_pos : 0 < p.bitrate_nominal
  pub nominal_word : p.bitrate_nominal < 2 ^ 31
  pub tail_length : 6 ≤ length p.tail

abbrev pub encode_packet : Identification → List ℕ
encode_packet p =
    vorbis_ident
    ++ (0
        ∷ 0
        ∷ 0
        ∷ 0
        ∷ p.channels
        ∷ (to_le_bytes p.sample_rate
            ++ (to_le_bytes p.bitrate_max ++ (to_le_bytes p.bitrate_nominal ++ p.tail))))

abbrev pub info_of : Identification → CodecInfo
info_of p = record {
  id = CodecId.vorbis;
  sample_rate = p.sample_rate;
  channels = p.channels;
  bitrate_kbps = some (p.bitrate_nominal / 1000);
}

probe_body-encode_packet :
    (p : Identification)
    → IsIdentification p
    → probe_body (encode_packet p) ≡ val (some (info_of p))
unfolding probe_body index slice
probe_body-encode_packet p w =
    let rate = le_u32-to_le_bytes p.sample_rate w.rate_word in
    let nominal = le_u32-to_le_bytes p.bitrate_nominal (omega arith) in
    ground (arith, rate, nominal)

-- A page that begins a stream: version, type, 20 further bytes of the header, the lacing table.
abbrev pub bos_page : ℕ → ℕ → List ℕ → List ℕ → List ℕ → List ℕ
bos_page version header_type f l body =
    ogg_magic ++ (version ∷ header_type ∷ (f ++ (length l ∷ (l ++ body))))

drop-bos_page :
    (version header_type : ℕ) (f l body : List ℕ)
    → length f ≡ 20
    → drop (27 + length l) (bos_page version header_type f l body) ≡ body
drop-bos_page version header_type f l body h =
    let head = ogg_magic ++ (version ∷ header_type ∷ (f ++ (length l ∷ l))) in
    let split : bos_page version header_type f l body ≡ head ++ body = simp append_assoc in
    rw split (drop_prefix (27 + length l) head body (omega (arith, length-append f (length l ∷ l))))

-- `VorbisCodec::probe` reads back the sample rate, the channels and the nominal bitrate (in kbit/s,
-- rounded down) of an identification packet that stands behind any beginning-of-stream page header.
pub probe-bos_page :
    (version header_type : ℕ) (f l : List ℕ) (p : Identification)
    → length f ≡ 20
    → (bit_and header_type 0x02 == 0) ≡ false
    → IsIdentification p
    → probe (bos_page version header_type f l (encode_packet p)) ≡ val (some (info_of p))
unfolding probe index slice slice_from
probe-bos_page version header_type f l p h bos w =
    let page = bos_page version header_type f l (encode_packet p) in
    let size : length page ≡ 27 + length l + length (encode_packet p) = omega (
      arith,
      length-append f (length l ∷ (l ++ encode_packet p)),
      length-append l (encode_packet p),
    ) in
    let count = get_elem?_prefix 20 f (length l) (l ++ encode_packet p) h in
    let body = drop-bos_page version header_type f l (encode_packet p) h in
    ground (arith, size, count, body, probe_body-encode_packet p w, bos)
