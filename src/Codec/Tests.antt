-- ===== src/Codec/Tests.antt =====
-- Runs of the codec definitions on the inputs of the repository's own tests, and each result of the
-- codec modules applied at a concrete input.
use rusty_ice.Prelude.{
  true, false, ℕ, ◌≡◌, refl, List, [], ◌∷◌, ◌++◌, arith, val, drop, replicate, some, index, slice,
  slice_from, flatten,
}
use rusty_ice.Core.Types.{CodecId, CodecInfo}
use rusty_ice.Codec.Mp3.{mp3_frame_size, sample_rate, table_at, is_sync}
use rusty_ice.Codec.Mp3
use rusty_ice.Codec.Mp3.Scan.{
  scan_bitrate_bps, scan_loop, detect_xing_frame_end, detect_loop, detect_at, tagged_end,
  tag_offset, is_tag,
}
use rusty_ice.Codec.Vorbis.{ogg_page_size}
use rusty_ice.Codec.Vorbis.Page.{OggPage, IsOggPage}
use rusty_ice.Codec.Vorbis.Identification.{Identification}
use rusty_ice.Codec.OggHeaderCapture.{OggHeaderCapture, new, push, loop, round, whole_page}
use rusty_ice.Codec.OggHeaderCapture.Total.{new-IsValid}
use rusty_ice.Codec.OggHeaderCapture.Splitting.{feed, feed-push}

-- MPEG 1 Layer 3, 128 kbit/s, 44100 Hz, stereo.
abbrev mpeg1_128k : List ℕ
mpeg1_128k = 0xff ∷ 0xfb ∷ 0x90 ∷ 0x04 ∷ []

mpeg1_128k_size : mp3_frame_size mpeg1_128k ≡ some 417
unfolding mp3_frame_size sample_rate table_at
mpeg1_128k_size = refl

mpeg1_128k_rate : scan_bitrate_bps (0 ∷ 1 ∷ mpeg1_128k) ≡ val (some 16000)
unfolding scan_bitrate_bps scan_loop Mp3.probe sample_rate table_at index slice_from is_sync
mpeg1_128k_rate = refl

abbrev xing_frame : List ℕ
xing_frame = mpeg1_128k ++ (replicate 32 0 ++ (b'X' ∷ b'i' ∷ b'n' ∷ b'g' ∷ replicate 400 0))

xing_frame_end : detect_xing_frame_end xing_frame ≡ val (some 417)
unfolding detect_xing_frame_end detect_loop detect_at tagged_end tag_offset is_tag Mp3.probe
    sample_rate table_at index slice slice_from is_sync
xing_frame_end = refl

abbrev mpeg1_128k_info : CodecInfo
mpeg1_128k_info = record {
  id = CodecId.mp3;
  sample_rate = 44100;
  channels = 2;
  bitrate_kbps = some 128;
}

mpeg1_128k-probe : Mp3.probe mpeg1_128k ≡ some mpeg1_128k_info
unfolding Mp3.probe sample_rate table_at
mpeg1_128k-probe = refl

abbrev small_page : ℕ → ℕ → OggPage
small_page header_type payload = record {
  fields = 0 ∷ header_type ∷ replicate 20 0;
  lacing = 1 ∷ [];
  body = payload ∷ [];
}

small_page-IsOggPage : IsOggPage (small_page 2 7)
small_page-IsOggPage = record {
  fields_length = refl;
  lacing_fits = omega arith;
  body_length = refl;
}

abbrev page_bytes : ℕ → List ℕ
page_bytes header_type =
    b'O' ∷ b'g' ∷ b'g' ∷ b'S' ∷ 0 ∷ header_type ∷ (replicate 20 0 ++ (1 ∷ 1 ∷ 7 ∷ []))

page_bytes_size : ogg_page_size (page_bytes 2) ≡ val (some 29)
unfolding ogg_page_size index slice
page_bytes_size = refl

abbrev stereo : Identification
stereo = record {
  channels = 2;
  sample_rate = 44100;
  bitrate_max = 0;
  bitrate_nominal = 192000;
  tail = replicate 6 0;
}

-- Three header pages, of which the second is continued by a fourth page, and an audio page.
abbrev header_pages : List ℕ
header_pages = page_bytes 2 ++ (page_bytes 0 ++ (page_bytes 1 ++ page_bytes 0))

abbrev stream : List (List ℕ)
stream = (header_pages ++ (b'O' ∷ [])) ∷ (b'g' ∷ b'g' ∷ b'S' ∷ drop 4 (page_bytes 0)) ∷ []

abbrev captured : OggHeaderCapture
captured = record {
  buf = header_pages;
  cursor = 116;
  fresh_packet_pages = 3;
  done = true;
  failed = false;
}

feed-stream : feed new stream ≡ val captured
unfolding push loop round whole_page index slice
feed-stream = refl

feed-push_example :
    feed new stream
    ≡ push new (
        (header_pages ++ (b'O' ∷ []))
        ++ flatten ((b'g' ∷ b'g' ∷ b'S' ∷ drop 4 (page_bytes 0)) ∷ []))
feed-push_example =
    feed-push new (header_pages ++ (b'O' ∷ [])) ((b'g' ∷ b'g' ∷ b'S' ∷ drop 4 (page_bytes 0)) ∷ [])
      new-IsValid (unfold flatten in omega arith)
