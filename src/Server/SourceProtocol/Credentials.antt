-- ===== src/Server/SourceProtocol/Credentials.antt =====
-- crates/rustyice-server/src/source_protocol.rs: the password and the codec in a source's headers.
-- The decoder of the base64 crate is an argument, whose `none` is an error.
use rusty_ice.Prelude.{
  ℕ, zero, suc, ◌||◌, ◌&&◌, Bool, false, Option, none, some, List, [], ◌∷◌, length, drop, leb, ◌==◌,
  ascii, if◌then◌else◌,
}
use rusty_ice.Prelude.Options.{◌>>=◌}
use rusty_ice.Core.Types.{CodecId}
use rusty_ice.Core.Mount.{Text}
use rusty_ice.Core.Config.{starts_with}
use rusty_ice.Server.SourceHeaders.{Headers}

unfoldable pub header : Headers → Text → Option Text
header headers name = elim (headers name) [ none ↦ none | some value ↦ value ]

unfoldable pub strip_prefix : Text → Text → Option Text
strip_prefix prefix text =
    if starts_with prefix text then some (drop (length prefix) text) else none

unfoldable pub between : ℕ → ℕ → ℕ → Bool
between lo hi b = leb lo b && leb b hi

-- The number of continuation bytes behind a first byte of UTF-8, and the range of the next byte.
unfoldable pub lead : ℕ → Option (ℕ × ℕ × ℕ)
lead b =
    if leb b 0x7f
    then some (0, 0, 0)
    else if between 0xc2 0xdf b
    then some (1, 0x80, 0xbf)
    else if b == 0xe0
    then some (2, 0xa0, 0xbf)
    else if b == 0xed
    then some (2, 0x80, 0x9f)
    else if between 0xe1 0xef b
    then some (2, 0x80, 0xbf)
    else if b == 0xf0
    then some (3, 0x90, 0xbf)
    else if between 0xf1 0xf3 b
    then some (3, 0x80, 0xbf)
    else if b == 0xf4
    then some (3, 0x80, 0x8f)
    else none

-- `String::from_utf8`: whether bytes are UTF-8, with so many continuation bytes still to come.
unfoldable pub utf8 : ℕ → ℕ → ℕ → List ℕ → Bool
utf8 n lo hi [] = n == 0
utf8 zero lo hi (b ∷ bs) = elim (lead b) [ none ↦ false | some (n, lo', hi') ↦ utf8 n lo' hi' bs ]
utf8 (suc n) lo hi (b ∷ bs) = between lo hi b && utf8 n 0x80 0xbf bs

unfoldable pub from_utf8 : List ℕ → Option Text
from_utf8 bytes = if utf8 0 0 0 bytes then some bytes else none

-- `split_once(':')`: the text behind the first colon.
unfoldable pub split_once : Text → Option Text
split_once [] = none
split_once (b ∷ bs) = if b == b':' then some bs else split_once bs

unfoldable pub password_of : Text → Text
password_of decoded = elim (split_once decoded) [ none ↦ decoded | some password ↦ password ]

unfoldable pub read_password : (Text → Option (List ℕ)) → Headers → Option Text
read_password decode headers = do
  value ← header headers (ascii "authorization")
  base64 ← strip_prefix (ascii "Basic ") value
  bytes ← decode base64
  decoded ← from_utf8 bytes
  some (password_of decoded)

unfoldable pub extract_source_password : (Text → Option (List ℕ)) → Headers → Text
extract_source_password decode headers = elim (read_password decode headers) [
  | none ↦ []
  | some p ↦ p
]

-- `str::contains`
unfoldable pub occurs_in : Text → Text → Bool
occurs_in needle [] = starts_with needle []
occurs_in needle (b ∷ bs) = starts_with needle (b ∷ bs) || occurs_in needle bs

unfoldable pub detect_codec_from_content_type : Headers → CodecId
detect_codec_from_content_type headers = elim (header headers (ascii "content-type")) [
  | none ↦ CodecId.mp3
  | some ct ↦
      if occurs_in (ascii "mpeg") ct
      then CodecId.mp3
      else if occurs_in (ascii "ogg") ct || occurs_in (ascii "vorbis") ct
      then CodecId.vorbis
      else if occurs_in (ascii "aac") ct
      then CodecId.aac
      else CodecId.mp3
]
