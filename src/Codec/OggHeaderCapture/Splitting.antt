-- ===== src/Codec/OggHeaderCapture/Splitting.antt =====
-- crates/rustyice-codec/src/vorbis.rs: the bytes that `OggHeaderCapture` keeps do not depend on how
-- the stream was cut into calls of `push`.
use rusty_ice.Prelude.{
  ℕ, zero, suc, ◌+◌, ◌-◌, ◌≤◌, ◌<◌, ◌≡◌, ◌∙◌, sym, ap, inl, inr, true, false, List, [], ◌∷◌, ◌++◌,
  arith, val, length, Bool-cases, length-append, Checked, ◌>>=◌, append_assoc, append-nil, subst,
  flatten,
}
use rusty_ice.Codec.OggHeaderCapture.{OggHeaderCapture, loop, push, is_settled, max_header_buffer}
use rusty_ice.Codec.OggHeaderCapture.Rounds.{
  IsOpen, round-again, round-cases, extend, extend-IsOpen, round-extend_again, round-extend_settled,
  round-unsettled, round-length,
}
use rusty_ice.Codec.OggHeaderCapture.Total.{IsValid, IsValid-IsOpen, push-IsValid}

-- The bytes that the loop has not passed yet.
abbrev ahead : OggHeaderCapture → ℕ
ahead c = length c.buf - c.cursor

loop-fuel :
    (f g : ℕ) (c : OggHeaderCapture) → IsOpen c → ahead c < f → ahead c < g → loop f c ≡ loop g c
unfolding loop
loop-fuel zero g c o h k = absurd (omega arith)
loop-fuel (suc f) zero c o h k = absurd (omega arith)
loop-fuel (suc f) (suc g) c o h k = elim (round-cases c) [
  | inl (d, e) ↦ ground (arith, e)
  | inr (d, e) ↦
      let next = round-again c d o e in
      let rest = loop-fuel f g d next.0 (ground (arith, next)) (ground (arith, next)) in
      ground (arith, e, rest)
]

loop-unsettled :
    (f : ℕ) (c d : OggHeaderCapture)
    → IsOpen c
    → loop f c ≡ val d
    → is_settled d ≡ false
    → IsOpen d × (d.buf ≡ c.buf) × (c.cursor ≤ d.cursor)
unfolding loop
loop-unsettled zero c d o e u = cc
loop-unsettled (suc f) c d o e u = elim (round-cases c) [
  | inl (c', r) ↦
      let same = round-unsettled c d (ground (arith, r)) u in
      (subst IsOpen (sym same) o, ap (λ x. x.buf) same, ground (arith, same))
  | inr (c', r) ↦
      let next = round-again c c' o r in
      let rest = loop-unsettled f c' d next.0 (ground (arith, r)) u in
      (rest.0, rest.1 ∙ next.1, omega (arith, next.2, rest.2))
]

loop-extend_settled :
    (f g : ℕ) (c d : OggHeaderCapture) (bytes : List ℕ)
    → IsOpen c
    → ahead (extend c bytes) < g
    → loop f c ≡ val d
    → is_settled d ≡ true
    → loop g (extend c bytes) ≡ val d
unfolding loop
loop-extend_settled zero g c d bytes o h e s = cc
loop-extend_settled (suc f) zero c d bytes o h e s = absurd (omega arith)
loop-extend_settled (suc f) (suc g) c d bytes o h e s = elim (round-cases c) [
  | inl (c', r) ↦
      let same = round-extend_settled c d bytes o (ground (arith, r)) s in ground (arith, same)
  | inr (c', r) ↦
      let next = round-again c c' o r in
      let far = extend-IsOpen c' bytes next.0 in
      let rest =
        loop-extend_settled f g c' d bytes next.0 (ground (arith, next, length-append c.buf bytes))
          (ground (arith, r)) s in
      ground (arith, round-extend_again c c' bytes r, rest)
]

loop-extend_open :
    (f g : ℕ) (c d : OggHeaderCapture) (bytes : List ℕ)
    → IsOpen c
    → ahead (extend c bytes) < g
    → loop f c ≡ val d
    → is_settled d ≡ false
    → loop g (extend c bytes) ≡ loop g (extend d bytes)
unfolding loop
loop-extend_open zero g c d bytes o h e u = cc
loop-extend_open (suc f) zero c d bytes o h e u = absurd (omega arith)
loop-extend_open (suc f) (suc g) c d bytes o h e u = elim (round-cases c) [
  | inl (c', r) ↦
      let same = round-unsettled c d (ground (arith, r)) u in
      ap (λ x. loop (suc g) (extend x bytes)) (sym same)
  | inr (c', r) ↦
      let next = round-again c c' o r in
      let end = loop-unsettled f c' d next.0 (ground (arith, r)) u in
      let rest =
        loop-extend_open f g c' d bytes next.0 (ground (arith, next, length-append c.buf bytes))
          (ground (arith, r)) u in
      let fuel =
        loop-fuel g (suc g) (extend d bytes) (extend-IsOpen d bytes end.0)
          (ground (arith, next, end, length-append c.buf bytes))
          (ground (arith, next, end, length-append c.buf bytes)) in
      rw (round-extend_again c c' bytes r) (rest ∙ fuel)
]

push-append_open :
    (c d : OggHeaderCapture) (a b : List ℕ)
    → IsValid c
    → is_settled c ≡ false
    → length c.buf + length a + length b ≤ max_header_buffer
    → push c a ≡ val d
    → push d b ≡ push c (a ++ b)
unfolding push
push-append_open c d a b v u fits e =
    let o = extend-IsOpen c a (IsValid-IsOpen c v u) in
    let la = length-append c.buf a in
    let lb = length-append (c.buf ++ a) b in
    let whole : extend c (a ++ b) ≡ extend (extend c a) b =
      ap (λ x. record c { buf = x }) (sym (append_assoc c.buf a b)) in
    let ran : loop (suc (length (c.buf ++ a))) (extend c a) ≡ val d = ground (arith, u, la) in
    let room = length-append a b in
    let lw = length-append c.buf (a ++ b) in
    let g = suc (length (c.buf ++ (a ++ b))) in
    let once : push c (a ++ b) ≡ loop g (extend (extend c a) b) =
      ground (arith, u, lw, room, whole) in
    elim (Bool-cases (is_settled d)) [
      | inl s ↦
          let same =
            loop-extend_settled _ g (extend c a) d b o (ground (arith, la, lb, lw, room)) ran s in
          ground (arith, s, once, same)
      | inr s ↦
          let end = loop-unsettled _ (extend c a) d o ran s in
          let same =
            loop-extend_open _ g (extend c a) d b o (ground (arith, la, lb, lw, room)) ran s in
          ground (arith, s, once, same, end, lb, la, lw, room)
    ]

-- Pushing `a` and then `b` leaves the same capture as pushing `a ++ b` at once, as long as the bytes
-- held and the two pushes together fit the 64 KiB cap.
pub push-append :
    (c d : OggHeaderCapture) (a b : List ℕ)
    → IsValid c
    → length c.buf + length a + length b ≤ max_header_buffer
    → push c a ≡ val d
    → push d b ≡ push c (a ++ b)
unfolding push
push-append c d a b v fits e = elim (Bool-cases (is_settled c)) [
  | inl s ↦ ground (arith, s)
  | inr u ↦ push-append_open c d a b v u fits e
]

-- One `push` after another, as the ingest loop makes them.
abbrev pub feed : OggHeaderCapture → List (List ℕ) → Checked OggHeaderCapture
feed c [] = val c
feed c (x ∷ xs) = push c x >>= λ d. feed d xs

loop-length :
    (f : ℕ) (c d : OggHeaderCapture) → IsOpen c → loop f c ≡ val d → length d.buf ≤ length c.buf
unfolding loop
loop-length zero c d o e = cc
loop-length (suc f) c d o e = elim (round-cases c) [
  | inl (c', r) ↦ round-length c d (ground (arith, r))
  | inr (c', r) ↦
      let next = round-again c c' o r in
      ground (arith, next, loop-length f c' d next.0 (ground (arith, r)))
]

push-length :
    (c d : OggHeaderCapture) (x : List ℕ)
    → IsValid c
    → push c x ≡ val d
    → length d.buf ≤ length c.buf + length x
unfolding push
push-length c d x v e = elim (Bool-cases (is_settled c)) [
  | inl s ↦ ground (arith, s)
  | inr u ↦
      let o = extend-IsOpen c x (IsValid-IsOpen c v u) in
      ground
        (arith, u, length-append c.buf x, loop-length (suc (length (c.buf ++ x))) (extend c x) d o)
]

-- However a stream is cut into pushes, the capture ends as if all its bytes had been pushed at once,
-- as long as they fit the 64 KiB cap together with the bytes held.
pub feed-push :
    (c : OggHeaderCapture) (x : List ℕ) (xs : List (List ℕ))
    → IsValid c
    → length c.buf + length (x ++ flatten xs) ≤ max_header_buffer
    → feed c (x ∷ xs) ≡ push c (x ++ flatten xs)
unfolding flatten
feed-push c x [] v fits = let (d, e, w) = push-IsValid c x v in ground (arith, e, append-nil x)
feed-push c x (y ∷ ys) v fits =
    let (d, e, w) = push-IsValid c x v in
    let held = push-length c d x v e in
    let size = length-append x (y ++ flatten ys) in
    let rest = feed-push d y ys w (omega (arith, held, size)) in
    let whole = push-append c d x (y ++ flatten ys) v (omega (arith, size)) e in
    ground (arith, e, rest, whole)
