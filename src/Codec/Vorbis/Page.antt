-- ===== src/Codec/Vorbis/Page.antt =====
-- crates/rustyice-codec/src/vorbis.rs: `ogg_page_size` against the layout of an Ogg page.
use rusty_ice.Prelude.{
  get_elem?, get_elem?-IsByte, take-IsBytes, drop-IsBytes, ℕ, ◌+◌, ◌-◌, ◌≤◌, ◌≡◌, ◌≢◌, inl, inr,
  some, List, [], ◌∷◌, ◌++◌, arith, val, panic, length, take, drop, index, slice, index-val,
  slice-val, length-take, length-append, sum, sum-le, IsBytes, Bool-cases, Option-cases, ltb,
  get_elem?_prefix, drop_prefix, take_prefix, append_assoc,
}
use rusty_ice.Codec.Vorbis.{ogg_page_size, ogg_magic}

-- The page as RFC 3533 lays it out: the magic, 22 bytes (version, type, granule, serial, sequence,
-- checksum), the number of segments, the lacing table and the body.
pub record OggPage : Type 0 where
  pub fields : List ℕ
  pub lacing : List ℕ
  pub body : List ℕ

pub record IsOggPage (p : OggPage) : Type 0 where
  pub fields_length : length p.fields ≡ 22
  pub lacing_fits : length p.lacing ≤ 255
  pub body_length : length p.body ≡ sum p.lacing

pub encode_page : OggPage → List ℕ
encode_page p = ogg_magic ++ (p.fields ++ (length p.lacing ∷ (p.lacing ++ p.body)))

-- `ogg_page_size` never reads out of bounds.
pub ogg_page_size-ne-panic : (xs : List ℕ) → ogg_page_size xs ≢ panic
unfolding ogg_page_size
ogg_page_size-ne-panic xs h = elim (Bool-cases (ltb (length xs) 27)) [
  | inl short ↦ ground arith
  | inr long ↦
      let (n, at) = index-val xs 26 (ground arith) in
      ground (arith, slice-val xs 0 4, at, slice-val xs 27 (27 + n))
]

abbrev page : List ℕ → List ℕ → List ℕ → List ℕ
page f l tail = ogg_magic ++ (f ++ (length l ∷ (l ++ tail)))

module _ (f l tail : List ℕ) (fields : length f ≡ 22) where
  length-page : length (page f l tail) ≡ 27 + length l + length tail
  length-page = omega (arith, length-append f (length l ∷ (l ++ tail)), length-append l tail)

  drop-page : drop 27 (page f l tail) ≡ l ++ tail
  drop-page =
      let split : page f l tail ≡ (ogg_magic ++ (f ++ (length l ∷ []))) ++ (l ++ tail) =
        simp append_assoc in
      let front : length (ogg_magic ++ (f ++ (length l ∷ []))) ≡ 27 =
        omega (arith, length-append f (length l ∷ [])) in
      rw split (drop_prefix 27 (ogg_magic ++ (f ++ (length l ∷ []))) (l ++ tail) front)

  lacing_at : slice (page f l tail) 27 (27 + length l) ≡ val l
  unfolding slice
  lacing_at =
      ground (arith, drop-page, length-page, take_prefix (27 + length l - 27) l tail (omega arith))

  ogg_page_size-page : ogg_page_size (page f l tail) ≡ val (some (27 + length l + sum l))
  unfolding ogg_page_size index
  ogg_page_size-page = ground (
    arith,
    length-page,
    lacing_at,
    slice-val (page f l tail) 0 4,
    get_elem?_prefix 26 (ogg_magic ++ f) (length l) (l ++ tail) (omega arith),
  )

-- On a well-formed page followed by anything, `ogg_page_size` is the length of that page.
pub ogg_page_size-encode_page :
    (p : OggPage) (rest : List ℕ)
    → IsOggPage p
    → ogg_page_size (encode_page p ++ rest) ≡ val (some (length (encode_page p)))
unfolding encode_page
ogg_page_size-encode_page p rest w =
    let grouped : encode_page p ++ rest ≡ page p.fields p.lacing (p.body ++ rest) =
      simp append_assoc in
    let size = ogg_page_size-page p.fields p.lacing (p.body ++ rest) w.fields_length in
    let whole = length-page p.fields p.lacing p.body w.fields_length in
    ground (arith, grouped, size, whole, w.body_length)

-- No buffer of bytes makes `ogg_page_size` exceed 65307, the longest page that the format allows,
-- nor fall below the 27 bytes of the fixed header.
pub ogg_page_size_bounds :
    (xs : List ℕ) (n : ℕ) → IsBytes xs → ogg_page_size xs ≡ val (some n) → (27 ≤ n) × (n ≤ 65307)
unfolding ogg_page_size index slice
ogg_page_size_bounds xs n h e = elim (Option-cases (get_elem? xs 26)) [
  | inl out ↦ ground arith
  | inr (k, at) ↦
      let table = take (27 + k - 27) (drop 27 xs) in
      ground (
        arith,
        at,
        get_elem?-IsByte xs 26 k h at,
        length-take (27 + k - 27) (drop 27 xs),
        sum-le table (take-IsBytes (27 + k - 27) (drop 27 xs) (drop-IsBytes 27 xs h)),
      )
]
