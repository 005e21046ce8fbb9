-- ===== src/Server/Chunked/Size.antt =====
-- crates/rustyice-server/src/chunked.rs: `parse_chunk_size`. The two errors it makes have the same
-- kind and are not told apart; a text that is not UTF-8 has no hexadecimal reading either.
use mathlib.Core.List.{reverse}
use rusty_ice.Prelude.{
  ℕ, zero, suc, ◌+◌, ◌-◌, ◌*◌, ◌^◌, ◌&&◌, Option, none, some, List, [], ◌∷◌, ◌++◌, map, length,
  take, drop, leb, ltb, ◌==◌, if◌then◌else◌, bytes_eq,
}

-- `iter().position(|&b| b == b';')`
unfoldable pub until_semicolon : List ℕ → List ℕ
until_semicolon [] = []
until_semicolon (b ∷ bs) = if b == b';' then [] else b ∷ until_semicolon bs

-- The UTF-8 forms of the characters that `str::trim` takes off.
abbrev pub whitespace : List (List ℕ)
whitespace =
    map (λ b. b ∷ []) (9 ∷ 10 ∷ 11 ∷ 12 ∷ 13 ∷ 32 ∷ [])
    ++ ((0xc2 ∷ 0x85 ∷ [])
        ∷ (0xc2 ∷ 0xa0 ∷ [])
        ∷ (0xe1 ∷ 0x9a ∷ 0x80 ∷ [])
        ∷ (0xe2 ∷ 0x80 ∷ 0xa8 ∷ [])
        ∷ (0xe2 ∷ 0x80 ∷ 0xa9 ∷ [])
        ∷ (0xe2 ∷ 0x80 ∷ 0xaf ∷ [])
        ∷ (0xe2 ∷ 0x81 ∷ 0x9f ∷ [])
        ∷ (0xe3 ∷ 0x80 ∷ 0x80 ∷ [])
        ∷ [])
    ++ map (λ b. 0xe2 ∷ 0x80 ∷ b ∷ [])
        (0x80 ∷ 0x81 ∷ 0x82 ∷ 0x83 ∷ 0x84 ∷ 0x85 ∷ 0x86 ∷ 0x87 ∷ 0x88 ∷ 0x89 ∷ 0x8a ∷ [])

-- The length of the first of these forms that the text starts with, or 0.
unfoldable pub leading : List (List ℕ) → List ℕ → ℕ
leading [] text = 0
leading (w ∷ ws) text = if bytes_eq w (take (length w) text) then length w else leading ws text

unfoldable pub strip : ℕ → List (List ℕ) → List ℕ → List ℕ
strip zero ws text = text
strip (suc fuel) ws text =
    let n = leading ws text in
    let rest = strip fuel ws (drop n text) in if n == 0 then text else rest

unfoldable pub trim : List ℕ → List ℕ
trim text =
    let front = strip (length text) whitespace text in
    reverse (strip (length front) (map reverse whitespace) (reverse front))

unfoldable pub hex_digit : ℕ → Option ℕ
hex_digit b =
    if leb b'0' b && leb b b'9'
    then some (b - b'0')
    else if leb b'a' b && leb b b'f'
    then some (10 + (b - b'a'))
    else if leb b'A' b && leb b b'F'
    then some (10 + (b - b'A'))
    else none

-- The digits behind what is read already, none past 64 bits.
unfoldable pub hex_digits : ℕ → List ℕ → Option ℕ
hex_digits acc [] = some acc
hex_digits acc (b ∷ bs) = elim (hex_digit b) [
  | none ↦ none
  | some d ↦
      let rest = hex_digits (acc * 16 + d) bs in if ltb (acc * 16 + d) (2 ^ 64) then rest else none
]

-- `u64::from_str_radix(_, 16)`, which takes a plus sign in front of a digit.
unfoldable pub from_str_radix : List ℕ → Option ℕ
from_str_radix [] = none
from_str_radix (b ∷ []) = hex_digits 0 (b ∷ [])
from_str_radix (b ∷ c ∷ bs) = if b == b'+' then hex_digits 0 (c ∷ bs) else hex_digits 0 (b ∷ c ∷ bs)

unfoldable pub parse_chunk_size : List ℕ → Option ℕ
parse_chunk_size line = from_str_radix (trim (until_semicolon line))
