-- ===== src/Codec/Mp3/Tag.antt =====
-- crates/rustyice-codec/src/mp3.rs: what `detect_xing_frame_end` returns.
use rusty_ice.Prelude.{
  ℕ, zero, suc, ◌+◌, ◌-◌, ◌≤◌, ◌≡◌, refl, inl, inr, true, false, none, some, List, [], ◌∷◌, arith,
  val, panic, length, drop, drop_two, slice-val, slice_from, slice_from-val, index, Bool-cases,
  Option-cases, ◌==◌, subst, ◌≢◌,
}
use rusty_ice.Core.Types.{CodecInfo}
use rusty_ice.Codec.Mp3.{is_sync, probe, mp3_frame_size, version_bits}
use rusty_ice.Codec.Mp3.Bounds.{mp3_frame_size-probe}
use rusty_ice.Codec.Mp3.Scan.{detect_loop, detect_at, tagged_end, detect_xing_frame_end, tag_offset}

pub probe-mpeg1 :
    (b0 b1 b2 b3 : ℕ) (rest : List ℕ) (info : CodecInfo) (kbps : ℕ)
    → probe (b0 ∷ b1 ∷ b2 ∷ b3 ∷ rest) ≡ some info
    → info.bitrate_kbps ≡ some kbps
    → (version_bits b1 == 3) ≡ true
unfolding probe
probe-mpeg1 b0 b1 b2 b3 rest info kbps e k = ground arith

module _ (xs : List ℕ) (sync b0 b1 b2 b3 : ℕ) (rest : List ℕ) (info : CodecInfo)
    (at : drop sync xs ≡ b0 ∷ b1 ∷ b2 ∷ b3 ∷ rest)
    (probed : probe (b0 ∷ b1 ∷ b2 ∷ b3 ∷ rest) ≡ some info) where
  tagged_end-frame :
      (e : ℕ)
      → tagged_end xs sync (version_bits b1 == 3) info b2 ≡ some e
      → (mp3_frame_size (drop sync xs) ≡ some (e - sync)) × (sync ≤ e) × (e ≤ length xs)
  unfolding tagged_end
  tagged_end-frame e h = elim (Option-cases info.bitrate_kbps) [
    | inl no_rate ↦ ground arith
    | inr (k, rate) ↦
        let mpeg1 = probe-mpeg1 b0 b1 b2 b3 rest info k probed rate in
        let size = mp3_frame_size-probe b0 b1 b2 b3 rest info k probed rate in
        ground (arith, at, mpeg1, size)
  ]

  detect_at-tagged_end :
      (e : ℕ)
      → detect_at xs sync (b0 ∷ b1 ∷ b2 ∷ b3 ∷ rest) info ≡ val (some e)
      → tagged_end xs sync (version_bits b1 == 3) info b2 ≡ some e
  unfolding detect_at index
  detect_at-tagged_end e h = ground arith

  detect_at-ne-panic : detect_at xs sync (b0 ∷ b1 ∷ b2 ∷ b3 ∷ rest) info ≢ panic
  unfolding detect_at index
  detect_at-ne-panic h = elim (Option-cases (tag_offset (version_bits b1 == 3) info.channels)) [
    | inl e ↦ ground arith
    | inr (o, e) ↦ ground (arith, slice-val xs (sync + o) (sync + o + 4))
  ]

  detect_at-no_rate :
      info.bitrate_kbps ≡ none → detect_at xs sync (b0 ∷ b1 ∷ b2 ∷ b3 ∷ rest) info ≡ val none
  unfolding detect_at tagged_end index
  detect_at-no_rate h = elim (Option-cases (tag_offset (version_bits b1 == 3) info.channels)) [
    | inl e ↦ ground arith
    | inr (o, e) ↦ ground (arith, slice-val xs (sync + o) (sync + o + 4))
  ]

-- Only a buffer of four bytes or more is recognised.
probe-four :
    (xs : List ℕ) (info : CodecInfo)
    → probe xs ≡ some info
    → (b0 : ℕ) × (b1 : ℕ) × (b2 : ℕ) × (b3 : ℕ) × (rest : List ℕ) × (xs ≡ b0 ∷ b1 ∷ b2 ∷ b3 ∷ rest)
unfolding probe
probe-four [] info h = cc
probe-four (a ∷ []) info h = cc
probe-four (a ∷ b ∷ []) info h = cc
probe-four (a ∷ b ∷ c ∷ []) info h = cc
probe-four (a ∷ b ∷ c ∷ d ∷ r) info h = (a, b, c, d, r, refl)

detect_loop-ne-panic : (xs : List ℕ) (n i : ℕ) → i + n ≡ length xs - 3 → detect_loop xs n i ≢ panic
unfolding detect_loop
detect_loop-ne-panic xs zero i h = λ e. cc
detect_loop-ne-panic xs (suc n) i h =
    let (a, b, r, e, e', ia, ib) = drop_two xs i (omega arith) in
    let ih = detect_loop-ne-panic xs n (suc i) (omega arith) in
    let s = slice_from-val xs i (omega arith) in
    elim (Option-cases (probe (drop i xs))) [
      | inl p ↦ ground (arith, ia, ib, s, p, ih)
      | inr (info, p) ↦
          let (b0, b1, b2, b3, t, q) = probe-four (drop i xs) info p in
          let p' = subst (λ d. probe d ≡ some info) q p in
          let at = detect_at-ne-panic xs i b0 b1 b2 b3 t info q p' in
          ground (arith, ia, ib, s, p, q, ih, at)
    ]

-- `detect_xing_frame_end` never indexes or slices out of bounds, whatever the buffer holds.
pub detect_xing_frame_end-ne-panic : (xs : List ℕ) → detect_xing_frame_end xs ≢ panic
unfolding detect_xing_frame_end
detect_xing_frame_end-ne-panic xs = detect_loop-ne-panic xs (length xs - 3) 0 (omega arith)

detect_loop-frame :
    (xs : List ℕ) (n i e : ℕ)
    → i + n ≡ length xs - 3
    → detect_loop xs n i ≡ val (some e)
    → (sync : ℕ) × (mp3_frame_size (drop sync xs) ≡ some (e - sync)) × (sync ≤ e) × (e ≤ length xs)
unfolding detect_loop
detect_loop-frame xs zero i e h d = cc
detect_loop-frame xs (suc n) i e h d =
    let (a, b, r, q0, q1, ia, ib) = drop_two xs i (omega arith) in
    let s = slice_from-val xs i (omega arith) in
    elim (Bool-cases (is_sync a b)) [
      | inl sync ↦ elim (Option-cases (probe (drop i xs))) [
        | inl p ↦ ground (arith, ia, ib, s, p, sync)
        | inr (info, p) ↦
            let (b0, b1, b2, b3, t, q) = probe-four (drop i xs) info p in
            let p' = subst (λ x. probe x ≡ some info) q p in
            let at : detect_at xs i (b0 ∷ b1 ∷ b2 ∷ b3 ∷ t) info ≡ val (some e) =
              ground (arith, ia, ib, s, p, q, sync) in
            let f =
              tagged_end-frame xs i b0 b1 b2 b3 t info q p' e
                (detect_at-tagged_end xs i b0 b1 b2 b3 t info q p' e at) in
            (i, f.0, f.1, f.2)
      ]
      | inr other ↦ detect_loop-frame xs n (suc i) e (omega arith) (ground (arith, ia, ib, other))
    ]

-- A position that `detect_xing_frame_end` returns is the end of a frame in the buffer: some suffix
-- starts with a header whose `mp3_frame_size` reaches exactly to it, and it lies within the buffer.
pub detect_xing_frame_end-frame :
    (xs : List ℕ) (e : ℕ)
    → detect_xing_frame_end xs ≡ val (some e)
    → (sync : ℕ) × (mp3_frame_size (drop sync xs) ≡ some (e - sync)) × (sync ≤ e) × (e ≤ length xs)
unfolding detect_xing_frame_end
detect_xing_frame_end-frame xs e h = detect_loop-frame xs (length xs - 3) 0 e (omega arith) h

probe-not_mpeg1 :
    (b0 b1 b2 b3 : ℕ) (rest : List ℕ) (info : CodecInfo)
    → (version_bits b1 == 3) ≡ false
    → probe (b0 ∷ b1 ∷ b2 ∷ b3 ∷ rest) ≡ some info
    → info.bitrate_kbps ≡ none
unfolding probe
probe-not_mpeg1 b0 b1 b2 b3 rest info v p = ground arith

-- If the buffer starts with a frame header of a version other than MPEG 1, no tag is found in it,
-- whatever follows: `probe` reports no bitrate for such a frame, and without one no end is computed.
pub detect_xing_frame_end_mpeg2 :
    (b0 b1 b2 b3 : ℕ) (rest : List ℕ)
    → is_sync b0 b1 ≡ true
    → (version_bits b1 == 3) ≡ false
    → detect_xing_frame_end (b0 ∷ b1 ∷ b2 ∷ b3 ∷ rest) ≡ val none
unfolding detect_xing_frame_end detect_loop index slice_from
detect_xing_frame_end_mpeg2 b0 b1 b2 b3 rest s v =
    let xs = b0 ∷ b1 ∷ b2 ∷ b3 ∷ rest in
    let rounds : length xs - 3 ≡ suc (length rest) = omega arith in
    elim (Option-cases (probe xs)) [
      | inl p ↦ rw rounds (ground arith)
      | inr (info, p) ↦
          let rate = probe-not_mpeg1 b0 b1 b2 b3 rest info v p in
          let at = detect_at-no_rate xs 0 b0 b1 b2 b3 rest info refl p rate in
          rw rounds (ground (arith, at))
    ]
