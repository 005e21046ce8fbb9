-- ===== src/Server/SourceHeaders.antt =====
-- crates/rustyice-server/src/source_headers.rs: what a source says of itself in its headers. The header
-- map of the http crate is a function that gives the first value of a header: `none` where it is
-- missing, and `some none` where `to_str` does not take its value.
use rusty_ice.Prelude.{
  ℕ, ◌+◌, ◌-◌, ◌*◌, ◌^◌, Bool, true, false, ◌&&◌, Option, none, some, List, [], ◌∷◌, leb, ltb, ◌==◌,
  bytes_eq, ascii, if◌then◌else◌,
}
use rusty_ice.Core.Mount.{Text, SourceOverlay}
use rusty_ice.Server.Chunked.Size.{trim}

abbrev pub Headers : Type 0
Headers = Text → Option (Option Text)

-- `get(primary).or_else(|| get(fallback))?.to_str().ok()`
unfoldable pub value_of : Headers → Text → Text → Option Text
value_of headers primary fallback = elim (headers primary) [
  | some value ↦ value
  | none ↦ elim (headers fallback) [ some value ↦ value | none ↦ none ]
]

unfoldable pub non_empty : Text → Option Text
non_empty [] = none
non_empty (b ∷ bs) = some (b ∷ bs)

unfoldable pub read_string : Headers → Text → Text → Option Text
read_string headers primary fallback = elim (value_of headers primary fallback) [
  | none ↦ none
  | some raw ↦ non_empty (trim raw)
]

unfoldable pub read_public : Headers → Option Bool
read_public headers = elim (value_of headers (ascii "ice-public") (ascii "icy-pub")) [
  | none ↦ none
  | some raw ↦
      if bytes_eq (trim raw) (ascii "1")
      then some true
      else if bytes_eq (trim raw) (ascii "0")
      then some false
      else none
]

-- The digits behind what is read already, none past the type's width.
unfoldable pub digits : ℕ → ℕ → List ℕ → Option ℕ
digits width acc [] = some acc
digits width acc (b ∷ bs) =
    let n = acc * 10 + (b - b'0') in
    let rest = digits width n bs in
    if leb b'0' b && (leb b b'9' && ltb n (2 ^ width)) then rest else none

-- `from_str` of an unsigned integer type, which takes a plus sign in front of a digit.
unfoldable pub from_str : ℕ → Text → Option ℕ
from_str width [] = none
from_str width (b ∷ []) = digits width 0 (b ∷ [])
from_str width (b ∷ c ∷ bs) =
    if b == b'+' then digits width 0 (c ∷ bs) else digits width 0 (b ∷ c ∷ bs)

unfoldable pub read_bitrate : Headers → Option ℕ
read_bitrate headers = elim (value_of headers (ascii "ice-bitrate") (ascii "icy-br")) [
  | none ↦ none
  | some raw ↦ from_str 32 (trim raw)
]

unfoldable pub parse_source_overlay : Headers → SourceOverlay
parse_source_overlay headers = record {
  name = read_string headers (ascii "ice-name") (ascii "icy-name");
  description = read_string headers (ascii "ice-description") (ascii "icy-description");
  genre = read_string headers (ascii "ice-genre") (ascii "icy-genre");
  url = read_string headers (ascii "ice-url") (ascii "icy-url");
  is_public = read_public headers;
  audio_info = read_string headers (ascii "ice-audio-info") (ascii "icy-audioinfo");
  bitrate_kbps = read_bitrate headers;
}
