-- ===== src/Codec/OggHeaderCapture.antt =====
-- crates/rustyice-codec/src/vorbis.rs: `OggHeaderCapture`, which keeps the leading pages of an Ogg
-- Vorbis stream until the first audio page. The loop of `push` runs on fuel, one round for each page
-- and one more; `panic` stands for an index out of bounds and for fuel that ran out alike.
pub mod Rounds
pub mod Total
pub mod Splitting
pub mod Alignment
use rusty_ice.Prelude.{
  ℕ, zero, suc, ◌+◌, Bool, true, false, not, ◌||◌, Option, none, some, List, [], ◌++◌, Checked, val,
  panic, ◌>>=◌, index, slice, length, take, bit_and, ltb, leb, ◌==◌, if◌then◌else◌, bytes_eq, sum,
  ◌*◌,
}
use rusty_ice.Codec.Vorbis.{ogg_magic}

abbrev pub max_header_buffer : ℕ
max_header_buffer = 64 * 1024

pub record OggHeaderCapture : Type 0 where
  pub buf : List ℕ
  pub cursor : ℕ
  pub fresh_packet_pages : ℕ
  pub done : Bool
  pub failed : Bool

-- `default()`
abbrev pub new : OggHeaderCapture
new = record { buf = []; cursor = 0; fresh_packet_pages = 0; done = false; failed = false }

abbrev pub is_settled : OggHeaderCapture → Bool
is_settled c = c.done || c.failed

abbrev pub header_bytes : OggHeaderCapture → Option (List ℕ)
header_bytes c = if c.done then some c.buf else none

-- `self.failed = true; self.buf.clear();`
abbrev pub give_up : OggHeaderCapture → OggHeaderCapture
give_up c = record c { buf = []; failed = true }

-- What one round of the loop ends with: `return`, or the next round.
pub data Flow : Type 0 where
  stop again : OggHeaderCapture → Flow

-- The end of a round, from `let header_type` on: a whole page of `page_size` bytes is there.
unfoldable pub whole_page : OggHeaderCapture → ℕ → ℕ → Flow
whole_page c header_type page_size =
    let next = c.cursor + page_size in
    if not (bit_and header_type 0x01 == 0)
    then again (record c { cursor = next })
    else if leb 3 c.fresh_packet_pages
    then stop (record c { buf = take c.cursor c.buf; done = true })
    else again (record c { cursor = next; fresh_packet_pages = suc c.fresh_packet_pages })

unfoldable pub round : OggHeaderCapture → Checked Flow
round c =
    let page_start = c.cursor in
    if ltb (length c.buf) (page_start + 27) then val (stop c) else do
      magic ← slice c.buf page_start (page_start + 4)
      if not (bytes_eq magic ogg_magic) then val (stop (give_up c)) else do
        n_segments ← index c.buf (page_start + 26)
        let lacing_end = page_start + 27 + n_segments
        if ltb (length c.buf) lacing_end then val (stop c) else do
          lacing ← slice c.buf (page_start + 27) lacing_end
          let page_size = 27 + n_segments + sum lacing
          if ltb (length c.buf) (page_start + page_size) then val (stop c) else do
            header_type ← index c.buf (page_start + 5)
            val (whole_page c header_type page_size)

unfoldable pub loop : ℕ → OggHeaderCapture → Checked OggHeaderCapture
loop zero c = panic
loop (suc fuel) c = do flow ← round c; elim flow [ stop c' ↦ val c' | again c' ↦ loop fuel c' ]

unfoldable pub push : OggHeaderCapture → List ℕ → Checked OggHeaderCapture
push c bytes =
    let filled = record c { buf = c.buf ++ bytes } in
    if is_settled c
    then val c
    else if ltb max_header_buffer (length filled.buf)
    then val (give_up c)
    else loop (suc (length filled.buf)) filled
