-- ===== src/Codec/Mp3/FirstFrame.antt =====
-- crates/rustyice-codec/src/mp3.rs: `scan_bitrate_bps` against a plain description.
use rusty_ice.Prelude.{
  ℕ, zero, suc, ◌+◌, ◌-◌, ◌≤◌, ◌≡◌, refl, false, Option, none, some, List, [], ◌∷◌, arith, val,
  length, drop, drop_two, slice_from-val, length-drop,
}
use rusty_ice.Codec.Mp3.{is_sync, probe}
use rusty_ice.Codec.Mp3.Scan.{scan_loop, scan_bitrate_bps, bitrate_of, bytes_per_second}

-- The bitrate of the first suffix that starts with a frame header of known bitrate.
pub first_bitrate : List ℕ → Option ℕ
first_bitrate [] = none
first_bitrate (x ∷ xs) = elim (bitrate_of (probe (x ∷ xs))) [
  | none ↦ first_bitrate xs
  | some kbps ↦ some (bytes_per_second kbps)
]

first_bitrate_short : (xs : List ℕ) → length xs ≤ 3 → first_bitrate xs ≡ none
unfolding first_bitrate probe
first_bitrate_short [] h = refl
first_bitrate_short (a ∷ []) h = refl
first_bitrate_short (a ∷ b ∷ []) h = refl
first_bitrate_short (a ∷ b ∷ c ∷ []) h = refl
first_bitrate_short (a ∷ b ∷ c ∷ d ∷ r) h = absurd (omega arith)

pub probe-not_sync : (a b : ℕ) (r : List ℕ) → is_sync a b ≡ false → probe (a ∷ b ∷ r) ≡ none
unfolding probe
probe-not_sync a b [] h = refl
probe-not_sync a b (c ∷ []) h = refl
probe-not_sync a b (c ∷ d ∷ r) h = rw h

scan_loop-first :
    (xs : List ℕ) (n i : ℕ)
    → i + n ≡ length xs - 3
    → scan_loop xs n i ≡ val (first_bitrate (drop i xs))
unfolding scan_loop first_bitrate
scan_loop-first xs zero i h =
    ground (arith, first_bitrate_short (drop i xs) (omega (arith, length-drop i xs)))
scan_loop-first xs (suc n) i h =
    let (a, b, r, e, e', ia, ib) = drop_two xs i (omega arith) in
    let ih = scan_loop-first xs n (suc i) (omega arith) in
    let s = slice_from-val xs i (omega arith) in
    ground (arith, ia, ib, e, e', s, ih, probe-not_sync a b r)

-- `scan_bitrate_bps` never reads out of bounds, and returns the bitrate, in bytes a second, of the
-- first position where a frame header with a known bitrate starts; `none` if there is none.
pub scan_bitrate_bps-first : (xs : List ℕ) → scan_bitrate_bps xs ≡ val (first_bitrate xs)
unfolding scan_bitrate_bps
scan_bitrate_bps-first xs = scan_loop-first xs (length xs - 3) 0 (omega arith)
