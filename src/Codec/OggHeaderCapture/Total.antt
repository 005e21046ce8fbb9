-- ===== src/Codec/OggHeaderCapture/Total.antt =====
-- crates/rustyice-codec/src/vorbis.rs: `OggHeaderCapture::push` returns, and keeps its invariant.
use rusty_ice.Prelude.{
  ℕ, zero, suc, ◌-◌, ◌≤◌, ◌<◌, ◌≡◌, refl, inl, inr, true, false, List, [], ◌++◌, arith, val, length,
  ◌&&◌, Bool-cases, ltb, length-take,
}
use rusty_ice.Codec.OggHeaderCapture.{
  OggHeaderCapture, stop, round, whole_page, loop, push, new, is_settled, give_up,
  max_header_buffer,
}
use rusty_ice.Codec.OggHeaderCapture.Rounds.{
  IsOpen, round-again, round-cases, extend, extend-IsOpen,
}

-- What holds between two calls of `push`.
pub record IsValid (c : OggHeaderCapture) : Type 0 where
  pub bounded : length c.buf ≤ max_header_buffer
  pub headers : c.fresh_packet_pages ≤ 3
  pub exclusive : (c.done && c.failed) ≡ false
  pub cleared : c.failed ≡ true → c.buf ≡ []
  pub complete : c.done ≡ true → c.fresh_packet_pages ≡ 3
  pub within : is_settled c ≡ false → c.cursor ≤ length c.buf

pub new-IsValid : IsValid new
new-IsValid = record {
  bounded = omega arith;
  headers = omega arith;
  exclusive = refl;
  cleared = λ e. cc;
  complete = λ e. cc;
  within = λ e. omega arith;
}

pub IsValid-IsOpen : (c : OggHeaderCapture) → IsValid c → is_settled c ≡ false → IsOpen c
IsValid-IsOpen c v u = record { within = v.within u; headers = v.headers; unsettled = u }

round-stop :
    (c d : OggHeaderCapture)
    → IsOpen c
    → length c.buf ≤ max_header_buffer
    → round c ≡ val (stop d)
    → IsValid d
unfolding round whole_page
round-stop c d o h e = record {
  bounded = ground (arith, length-take c.cursor c.buf);
  headers = ground arith;
  exclusive = ground arith;
  cleared = λ f. ground arith;
  complete = λ f. ground arith;
  within = λ f. ground arith;
}

pub loop-IsValid :
    (fuel : ℕ) (c : OggHeaderCapture)
    → IsOpen c
    → length c.buf ≤ max_header_buffer
    → length c.buf - c.cursor < fuel
    → (d : OggHeaderCapture) × (loop fuel c ≡ val d) × IsValid d
unfolding loop
loop-IsValid zero c o h m = absurd (omega arith)
loop-IsValid (suc fuel) c o h m = elim (round-cases c) [
  | inl (d, e) ↦ (d, ground (arith, e), round-stop c d o h e)
  | inr (d, e) ↦
      let next = round-again c d o e in
      let (r, run, v) = loop-IsValid fuel d next.0 (ground (arith, next)) (ground (arith, next)) in
      (r, ground (arith, e, run), v)
]

give_up-IsValid : (c : OggHeaderCapture) → IsValid c → is_settled c ≡ false → IsValid (give_up c)
give_up-IsValid c v u = record {
  bounded = omega arith;
  headers = v.headers;
  exclusive = ground arith;
  cleared = λ f. refl;
  complete = λ f. ground arith;
  within = λ f. ground arith;
}

-- `push` always returns: it never reads out of bounds and its loop ends. The buffer never holds more
-- than 64 KiB between calls, a capture never both succeeds and fails, a failed one holds no bytes, and
-- a finished one has counted exactly three fresh-packet pages.
pub push-IsValid :
    (c : OggHeaderCapture) (bytes : List ℕ)
    → IsValid c
    → (d : OggHeaderCapture) × (push c bytes ≡ val d) × IsValid d
unfolding push
push-IsValid c bytes v = elim (Bool-cases (is_settled c)) [
  | inl settled ↦ (c, ground (arith, settled), v)
  | inr unsettled ↦ elim (Bool-cases (ltb max_header_buffer (length (c.buf ++ bytes)))) [
    | inl full ↦ (give_up c, ground (arith, unsettled, full), give_up-IsValid c v unsettled)
    | inr fits ↦
        let o = extend-IsOpen c bytes (IsValid-IsOpen c v unsettled) in
        let (d, run, w) =
          loop-IsValid (suc (length (c.buf ++ bytes))) (extend c bytes) o (ground arith)
            (omega arith) in
        (d, ground (arith, unsettled, fits, run), w)
  ]
]
