-- ===== src/Codec/OggHeaderCapture/Alignment.antt =====
-- crates/rustyice-codec/src/vorbis.rs: the bytes that `OggHeaderCapture` hands out are whole pages.
use rusty_ice.Prelude.{
  ℕ, zero, suc, ◌+◌, ◌-◌, ◌≤◌, ◌<◌, ◌≡◌, ◌∙◌, sym, refl, inl, inr, true, false, List, [], ◌∷◌, ◌++◌,
  arith, val, length, Bool, Bool-cases, ltb, length-take, length-drop, subst, take, drop, index,
  slice, index-val, slice-val, index-drop, slice-drop, index-take, slice-take, take-add, sum,
  bytes_eq, bit_and, ◌==◌, some, not, take-append_left, take_all,
}
use rusty_ice.Codec.Vorbis.{ogg_page_size, ogg_magic}
use rusty_ice.Codec.OggHeaderCapture.{
  OggHeaderCapture, stop, again, round, whole_page, loop, push, new, is_settled, max_header_buffer,
  header_bytes,
}
use rusty_ice.Codec.OggHeaderCapture.Rounds.{
  IsOpen, round-again, round-cases, extend, extend-IsOpen,
}
use rusty_ice.Codec.OggHeaderCapture.Splitting.{feed}
use rusty_ice.Codec.OggHeaderCapture.Total.{IsValid, IsValid-IsOpen, push-IsValid, new-IsValid}

-- One Ogg page, the whole of it and no more.
abbrev pub IsPage : List ℕ → Type 0
IsPage page = ogg_page_size page ≡ val (some (length page))

-- The continuation bit of a page's header type, byte 5.
abbrev pub HasContinuation : List ℕ → Bool → Type 0
HasContinuation page b = (t : ℕ) × (index page 5 ≡ val t) × (not (bit_and t 0x01 == 0) ≡ b)

-- A sequence of whole pages, of which `k` do not continue a packet.
pub data Pages : ℕ → List ℕ → Type 0 where
  empty : Pages 0 []
  fresh :
      {k : ℕ} {xs ys : List ℕ} (page : List ℕ)
      → Pages k xs
      → IsPage page
      → HasContinuation page false
      → ys ≡ xs ++ page
      → Pages (suc k) ys
  continued :
      {k : ℕ} {xs ys : List ℕ} (page : List ℕ)
      → Pages k xs
      → IsPage page
      → HasContinuation page true
      → ys ≡ xs ++ page
      → Pages k ys

take-IsPage :
    (ys m l : List ℕ) (n size : ℕ)
    → size ≤ length ys
    → slice ys 0 4 ≡ val m
    → bytes_eq m ogg_magic ≡ true
    → index ys 26 ≡ val n
    → slice ys 27 (27 + n) ≡ val l
    → size ≡ 27 + n + sum l
    → IsPage (take size ys)
unfolding ogg_page_size
take-IsPage ys m l n size h magic ok count lacing whole = ground (
  arith,
  length-take size ys,
  slice-take size 0 4 ys,
  index-take size 26 ys,
  slice-take size 27 (27 + n) ys,
)

module _ (c d : OggHeaderCapture) (e : round c ≡ val (again d)) where
  abbrev ahead : List ℕ
  ahead = drop c.cursor c.buf

  -- The page that a round goes over.
  record Passed : Type 0 where
    size : ℕ
    header_type : ℕ
    within : c.cursor + size ≤ length c.buf
    five : 5 < size
    whole : IsPage (take size ahead)
    typed : index c.buf (c.cursor + 5) ≡ val header_type
    ends : whole_page c header_type size ≡ again d

  round-long : 27 ≤ length ahead
  unfolding round
  round-long = ground (arith, length-drop c.cursor c.buf)

  round-Passed :
      (n t : ℕ) → index c.buf (c.cursor + 26) ≡ val n → index c.buf (c.cursor + 5) ≡ val t → Passed
  unfolding round
  round-Passed n t i26 i5 =
      let long = round-long in
      let around = length-drop c.cursor c.buf in
      let magic : slice c.buf c.cursor (c.cursor + 4) ≡ val (take 4 ahead) =
        ground (arith, slice-val c.buf c.cursor (c.cursor + 4)) in
      let magic_ok : bytes_eq (take 4 ahead) ogg_magic ≡ true = ground arith in
      let fits : c.cursor + 27 + n ≤ length c.buf = ground arith in
      let l = take (27 + n - 27) (drop 27 ahead) in
      let lacing = slice-val ahead 27 (27 + n) (omega arith) (omega arith) in
      let table = slice-drop c.cursor 27 (27 + n) c.buf (omega arith) (omega arith) in
      let table' : slice c.buf (c.cursor + 27) (c.cursor + 27 + n) ≡ val l =
        ground (arith, lacing, table) in
      let size = 27 + n + sum l in
      let within : c.cursor + size ≤ length c.buf = ground arith in
      record {
        size = size;
        header_type = t;
        within = within;
        five = omega arith;
        whole =
            take-IsPage ahead (take 4 ahead) l n size (omega arith)
              (slice-val ahead 0 4 (omega arith) (omega arith)) magic_ok
              (index-drop c.cursor 26 c.buf ∙ i26) lacing refl;
        typed = i5;
        ends = ground arith;
      }

  passed : Passed
  passed =
      let long = round-long in
      let around = length-drop c.cursor c.buf in
      let (n, i26) = index-val c.buf (c.cursor + 26) (omega arith) in
      let (t, i5) = index-val c.buf (c.cursor + 5) (omega arith) in round-Passed n t i26 i5

-- The bytes in front of the cursor.
abbrev pub behind : OggHeaderCapture → List ℕ
behind c = take c.cursor c.buf

Pages-again :
    (c d : OggHeaderCapture) (size t : ℕ)
    → c.cursor + size ≤ length c.buf
    → 5 < size
    → IsPage (take size (drop c.cursor c.buf))
    → index c.buf (c.cursor + 5) ≡ val t
    → whole_page c t size ≡ again d
    → Pages c.fresh_packet_pages (behind c)
    → Pages d.fresh_packet_pages (behind d)
unfolding whole_page
Pages-again c d size t h five page i5 e p =
    let rest = drop c.cursor c.buf in
    let inner : index (take size rest) 5 ≡ val t =
      index-take size 5 rest (omega (arith, length-drop c.cursor c.buf)) five
      ∙ index-drop c.cursor 5 c.buf
      ∙ i5 in
    let grown : take (c.cursor + size) c.buf ≡ behind c ++ take size rest =
      take-add c.cursor size c.buf in
    elim (Bool-cases (bit_and t 0x01 == 0)) [
      | inl f ↦
          let count : d.fresh_packet_pages ≡ suc c.fresh_packet_pages = ground arith in
          let ends : behind d ≡ behind c ++ take size rest = ground arith in
          subst (λ k. Pages k (behind d)) (sym count)
            (fresh (take size rest) p page (t, inner, ground arith) ends)
      | inr cont ↦
          let count : d.fresh_packet_pages ≡ c.fresh_packet_pages = ground arith in
          let ends : behind d ≡ behind c ++ take size rest = ground arith in
          subst (λ k. Pages k (behind d)) (sym count)
            (continued (take size rest) p page (t, inner, ground arith) ends)
    ]

-- What holds of a capture's bytes between two calls of `push`.
pub record IsAligned (c : OggHeaderCapture) : Type 0 where
  pub pages : c.failed ≡ false → Pages c.fresh_packet_pages (behind c)
  pub ended : c.done ≡ true → behind c ≡ c.buf

module _ (c d : OggHeaderCapture) (open_c : IsOpen c) (e : round c ≡ val (stop d)) where
  behind-stop :
      d.failed ≡ false → (d.fresh_packet_pages ≡ c.fresh_packet_pages) × (behind d ≡ behind c)
  unfolding round whole_page
  behind-stop h =
      ground (arith, take_all c.cursor (take c.cursor c.buf), length-take c.cursor c.buf)

  ended-stop : d.done ≡ true → behind d ≡ d.buf
  unfolding round whole_page
  ended-stop h = ground (arith, take_all c.cursor (take c.cursor c.buf), length-take c.cursor c.buf)

  stop-IsAligned : Pages c.fresh_packet_pages (behind c) → IsAligned d
  stop-IsAligned p = record {
    pages = λ h.
        let same = behind-stop h in
        subst (λ k. Pages k (behind d)) (sym same.0)
          (subst (Pages c.fresh_packet_pages) (sym same.1) p);
    ended = ended-stop;
  }

loop-IsAligned :
    (f : ℕ) (c d : OggHeaderCapture)
    → IsOpen c
    → Pages c.fresh_packet_pages (behind c)
    → loop f c ≡ val d
    → IsAligned d
unfolding loop
loop-IsAligned zero c d o p e = cc
loop-IsAligned (suc f) c d o p e = elim (round-cases c) [
  | inl (c', r) ↦ stop-IsAligned c d o (ground (arith, r)) p
  | inr (c', r) ↦
      let over = passed c c' r in
      let p' =
        Pages-again c c' over.size over.header_type over.within over.five over.whole over.typed
          over.ends p in
      loop-IsAligned f c' d (round-again c c' o r).0 p' (ground (arith, r))
]

push-IsAligned :
    (c d : OggHeaderCapture) (bytes : List ℕ)
    → IsValid c
    → IsAligned c
    → push c bytes ≡ val d
    → IsAligned d
unfolding push
push-IsAligned c d bytes v a e = elim (Bool-cases (is_settled c)) [
  | inl s ↦ subst IsAligned (ground arith) a
  | inr u ↦ elim (Bool-cases (ltb max_header_buffer (length (c.buf ++ bytes)))) [
    | inl full ↦ record { pages = λ h. ground arith; ended = λ h. ground arith }
    | inr fits ↦
        let o = extend-IsOpen c bytes (IsValid-IsOpen c v u) in
        let same = take-append_left c.cursor c.buf bytes (v.within u) in
        loop-IsAligned (suc (length (c.buf ++ bytes))) (extend c bytes) d o
          (subst (Pages c.fresh_packet_pages) (sym same) (a.pages (ground arith))) (ground arith)
  ]
]

feed-IsAligned :
    (c d : OggHeaderCapture) (chunks : List (List ℕ))
    → IsValid c
    → IsAligned c
    → feed c chunks ≡ val d
    → IsValid d × IsAligned d
feed-IsAligned c d [] v a e =
    let same : c ≡ d = cc in (subst IsValid same v, subst IsAligned same a)
feed-IsAligned c d (x ∷ xs) v a e =
    let (c', p, v') = push-IsValid c x v in
    feed-IsAligned c' d xs v' (push-IsAligned c c' x v a p) (ground (arith, p))

-- Whatever chunks are pushed into a new capture, the header bytes that it hands out are a sequence of
-- whole Ogg pages of which exactly three start a packet.
pub header_bytes-Pages :
    (chunks : List (List ℕ)) (d : OggHeaderCapture) (bytes : List ℕ)
    → feed new chunks ≡ val d
    → header_bytes d ≡ some bytes
    → Pages 3 bytes
header_bytes-Pages chunks d bytes e h =
    let (v, a) = feed-IsAligned new d chunks new-IsValid new-IsAligned e in
    let done : d.done ≡ true = ground arith in
    let three = v.complete done in
    let whole : behind d ≡ bytes = ground (arith, a.ended done) in
    subst (λ k. Pages k bytes) three
      (subst (Pages d.fresh_packet_pages) whole (a.pages (ground (arith, v.exclusive))))
  where
    new-IsAligned : IsAligned new
    new-IsAligned = record { pages = λ h. empty; ended = λ h. refl }
