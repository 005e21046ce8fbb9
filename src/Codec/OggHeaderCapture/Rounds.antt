-- ===== src/Codec/OggHeaderCapture/Rounds.antt =====
-- crates/rustyice-codec/src/vorbis.rs: one round of the loop in `OggHeaderCapture::push`.
use rusty_ice.Prelude.{
  ℕ, ◌+◌, ◌≤◌, ◌≡◌, ◌≢◌, ◌⊎◌, refl, inl, inr, true, false, List, ◌++◌, arith, val, panic, length,
  index-val, slice-val, slice-append_left, index-append_left, length-take, length-append, Checked,
  take-append_left, Bool-cases, ltb,
}
use rusty_ice.Codec.OggHeaderCapture.{
  OggHeaderCapture, Flow, stop, again, round, whole_page, is_settled,
}

-- An unsettled capture reads within its buffer.
pub record IsOpen (c : OggHeaderCapture) : Type 0 where
  pub within : c.cursor ≤ length c.buf
  pub headers : c.fresh_packet_pages ≤ 3
  pub unsettled : is_settled c ≡ false

pub round-ne-panic : (c : OggHeaderCapture) → round c ≢ panic
unfolding round
round-ne-panic c p = elim (Bool-cases (ltb (length c.buf) (c.cursor + 27))) [
  | inl short ↦ ground arith
  | inr long ↦
      let (n, i26) = index-val c.buf (c.cursor + 26) (ground arith) in
      let (t, i5) = index-val c.buf (c.cursor + 5) (ground arith) in
      ground (
        arith,
        slice-val c.buf c.cursor (c.cursor + 4),
        i26,
        i5,
        slice-val c.buf (c.cursor + 27) (c.cursor + 27 + n),
      )
]

-- The next round starts at least 27 bytes further on, on the same buffer, and still within it.
pub round-again :
    (c d : OggHeaderCapture)
    → IsOpen c
    → round c ≡ val (again d)
    → IsOpen d × (d.buf ≡ c.buf) × (c.cursor + 27 ≤ d.cursor)
unfolding round whole_page
round-again c d o e = ground arith

-- Bytes appended behind the buffer.
abbrev pub extend : OggHeaderCapture → List ℕ → OggHeaderCapture
extend c bytes = record c { buf = c.buf ++ bytes }

-- A round that goes on does the same when more bytes are already there.
pub round-extend_again :
    (c d : OggHeaderCapture) (bytes : List ℕ)
    → round c ≡ val (again d)
    → round (extend c bytes) ≡ val (again (extend d bytes))
unfolding round whole_page
round-extend_again c d bytes e = elim (Bool-cases (ltb (length c.buf) (c.cursor + 27))) [
  | inl short ↦ ground arith
  | inr long ↦
      let (n, i26) = index-val c.buf (c.cursor + 26) (ground arith) in
      ground (
        arith,
        length-append c.buf bytes,
        slice-append_left c.buf bytes c.cursor (c.cursor + 4),
        i26,
        index-append_left c.buf bytes (c.cursor + 26),
        index-append_left c.buf bytes (c.cursor + 5),
        slice-append_left c.buf bytes (c.cursor + 27) (c.cursor + 27 + n),
        take-append_left c.cursor c.buf bytes,
      )
]

-- A round that settles the capture does the same too: what it keeps does not depend on them.
pub round-extend_settled :
    (c d : OggHeaderCapture) (bytes : List ℕ)
    → IsOpen c
    → round c ≡ val (stop d)
    → is_settled d ≡ true
    → round (extend c bytes) ≡ val (stop d)
unfolding round whole_page
round-extend_settled c d bytes o e s = elim (Bool-cases (ltb (length c.buf) (c.cursor + 27))) [
  | inl short ↦ ground arith
  | inr long ↦
      let (n, i26) = index-val c.buf (c.cursor + 26) (ground arith) in
      ground (
        arith,
        length-append c.buf bytes,
        slice-append_left c.buf bytes c.cursor (c.cursor + 4),
        i26,
        index-append_left c.buf bytes (c.cursor + 26),
        index-append_left c.buf bytes (c.cursor + 5),
        slice-append_left c.buf bytes (c.cursor + 27) (c.cursor + 27 + n),
        take-append_left c.cursor c.buf bytes,
      )
]

-- A round that returns unsettled has changed nothing.
pub round-unsettled :
    (c d : OggHeaderCapture) → round c ≡ val (stop d) → is_settled d ≡ false → d ≡ c
unfolding round whole_page
round-unsettled c d e s = ground arith

Flow-cases :
    (r : Checked Flow)
    → r ≢ panic
    → ((d : OggHeaderCapture) × (r ≡ val (stop d))) ⊎ ((d : OggHeaderCapture) × (r ≡ val (again d)))
Flow-cases panic h = absurd (h refl)
Flow-cases (val (stop d)) h = inl (d, refl)
Flow-cases (val (again d)) h = inr (d, refl)

-- A round returns or goes on.
pub round-cases :
    (c : OggHeaderCapture)
    → ((d : OggHeaderCapture) × (round c ≡ val (stop d)))
      ⊎ ((d : OggHeaderCapture) × (round c ≡ val (again d)))
round-cases c = Flow-cases (round c) (round-ne-panic c)

pub extend-IsOpen : (c : OggHeaderCapture) (bytes : List ℕ) → IsOpen c → IsOpen (extend c bytes)
extend-IsOpen c bytes o = record {
  within = omega (arith, length-append c.buf bytes, o.within);
  headers = o.headers;
  unsettled = o.unsettled;
}

pub round-length : (c d : OggHeaderCapture) → round c ≡ val (stop d) → length d.buf ≤ length c.buf
unfolding round whole_page
round-length c d e = ground (arith, length-take c.cursor c.buf)
