-- ===== src/Ingest/Prefix/Suffix.antt =====
-- crates/rustyice-ingest/src/icecast.rs: what is left of a stream whose prefix was stripped.
use rusty_ice.Prelude.{
  ℕ, ◌+◌, ◌-◌, ◌*◌, ◌^◌, ◌≤◌, ◌<◌, ◌≡◌, ◌⊎◌, ◌∙◌, refl, sym, ap, subst, inl, inr, false, not,
  Option, none, some, List, [], ◌∷◌, ◌++◌, length, take, drop, flatten, ltb, Checked, val, slice,
  slice_from-val, slice-val, index-val, index-append_left, slice-append_left, low_bits, bytes_eq,
  arith, append-nil, length-append, drop-append_left, Bool-cases, Checked-cases,
}
use rusty_ice.Codec.Mp3.{mp3_frame_size}
use rusty_ice.Codec.Mp3.Scan.{detect_xing_frame_end}
use rusty_ice.Codec.Mp3.Tag.{detect_xing_frame_end-ne-panic, detect_xing_frame_end-frame}
use rusty_ice.Ingest.Prefix.{
  ReadOutcome, parse_id3v2_total, strip_xing_in_place, flush_remaining, Collected, ready, ended,
  stopped, collect, after_tag, forward, tagged, strip_mp3_prefix,
}
use rusty_ice.Ingest.Prefix.Reading.{
  stream, IsSteady, Collects, collect-Collects, Skips, after_tag-Skips,
}

-- What the search for a Xing frame takes off: nothing, or all up to the end of a frame.
abbrev pub Ends : List ℕ → ℕ → Type 0
Ends pending end =
    (end ≡ 0)
    ⊎ ((sync : ℕ) × (mp3_frame_size (drop sync pending) ≡ some (end - sync)) × (sync ≤ end))

strip_xing_in_place_lem :
    (pending : List ℕ)
    → (end : ℕ) × (strip_xing_in_place pending ≡ val (drop end pending))
      × (end ≤ length pending)
      × Ends pending end
unfolding strip_xing_in_place
strip_xing_in_place_lem pending = elim (Checked-cases (detect_xing_frame_end pending)) [
  | inl bad ↦ absurd (detect_xing_frame_end-ne-panic pending bad)
  | inr (none, e) ↦ (0, rw (strip_xing_in_place, e) refl, omega arith, inl refl)
  | inr (some end, e) ↦
      let (sync, size, low, high) = detect_xing_frame_end-frame pending end e in
      (
        end,
        rw (strip_xing_in_place, e) (slice_from-val pending end high),
        high,
        inr (sync, size, low),
      )
]

flatten-flush_remaining : (xs : List ℕ) → flatten (flush_remaining xs) ≡ xs
unfolding flush_remaining flatten
flatten-flush_remaining [] = refl
flatten-flush_remaining (x ∷ xs) = append-nil (x ∷ xs)

-- What is sent and what is still to be read make up the stream behind `end` bytes, which end a frame.
abbrev pub Forwards : List ℕ → Checked (List (List ℕ) × List ReadOutcome) → Type 0
Forwards left result =
    (sent : List (List ℕ)) × (rest : List ReadOutcome) × (end : ℕ) × (pending : List ℕ)
    × (tail : List ℕ) × (result ≡ val (sent, rest))
    × (flatten sent ++ stream rest ≡ drop end left)
    × (left ≡ pending ++ tail)
    × Ends pending end
    × IsSteady rest

forward-Forwards :
    (n : ℕ) (left : List ℕ) (c : Collected) → Collects n left c → Forwards left (forward c)
unfolding forward
forward-Forwards n left stopped h = absurd h
forward-Forwards n left (ended pending) (e, k) =
    let (end, f, high, ends) = strip_xing_in_place_lem pending in
    (
      flush_remaining (drop end pending),
      [],
      end,
      pending,
      [],
      rw f refl,
      append-nil (flatten (flush_remaining (drop end pending)))
          ∙ flatten-flush_remaining (drop end pending)
          ∙ ap (drop end) (sym e),
      e ∙ sym (append-nil pending),
      ends,
      tt,
    )
forward-Forwards n left (ready pending reads) (e, k, s) =
    let (end, f, high, ends) = strip_xing_in_place_lem pending in
    (
      flush_remaining (drop end pending),
      reads,
      end,
      pending,
      stream reads,
      rw f refl,
      ap (λ z. z ++ stream reads) (flatten-flush_remaining (drop end pending))
          ∙ sym (drop-append_left end pending (stream reads) high)
          ∙ ap (drop end) (sym e),
      e,
      ends,
      s,
    )

-- Ten bytes decide about the tag.
parse_id3v2_total-append :
    (xs ys : List ℕ)
    → 10 ≤ length xs
    → (n : ℕ) × (parse_id3v2_total xs ≡ val n) × (parse_id3v2_total (xs ++ ys) ≡ val n)
unfolding parse_id3v2_total
parse_id3v2_total-append xs ys h =
    let long : ltb (length xs) 10 ≡ false = ground (arith, h) in
    let longer : ltb (length (xs ++ ys)) 10 ≡ false = ground (arith, h, length-append xs ys) in
    let magic = take 3 (drop 0 xs) in
    let m : slice xs 0 3 ≡ val magic = slice-val xs 0 3 (omega arith) (omega (arith, h)) in
    let m' = slice-append_left xs ys 0 3 (omega arith) (omega (arith, h)) in
    let (b6, e6) = index-val xs 6 (omega (arith, h)) in
    let (b7, e7) = index-val xs 7 (omega (arith, h)) in
    let (b8, e8) = index-val xs 8 (omega (arith, h)) in
    let (b9, e9) = index-val xs 9 (omega (arith, h)) in
    let f6 = index-append_left xs ys 6 (omega (arith, h)) in
    let f7 = index-append_left xs ys 7 (omega (arith, h)) in
    let f8 = index-append_left xs ys 8 (omega (arith, h)) in
    let f9 = index-append_left xs ys 9 (omega (arith, h)) in
    elim (Bool-cases (not (bytes_eq magic (b'I' ∷ b'D' ∷ b'3' ∷ [])))) [
      | inl untagged ↦
          (0, ground (arith, long, m, untagged), ground (arith, longer, m', m, untagged))
      | inr there ↦ (
        10
            + (low_bits b6 7 * 2 ^ 21
                + low_bits b7 7 * 2 ^ 14
                + low_bits b8 7 * 2 ^ 7
                + low_bits b9 7),
        ground (arith, long, m, there, e6, e7, e8, e9),
        ground (arith, longer, m', m, there, f6, f7, f8, f9, e6, e7, e8, e9),
      )
    ]

short_parse : (xs : List ℕ) → length xs < 10 → parse_id3v2_total xs ≡ val 0
unfolding parse_id3v2_total
short_parse xs h = ground (arith, h)

after-Forwards :
    (left : List ℕ) (found : Option (List ℕ × List ReadOutcome))
    → Skips left found
    → Forwards left (elim found [
      | none ↦ val ([], [])
      | some (pending, rest) ↦ forward (collect 2048 pending rest)
    ])
unfolding flatten
after-Forwards left none h = ([], [], 0, left, [], refl, sym h, sym (append-nil left), inl refl, tt)
after-Forwards left (some (pending, reads)) (e, s) = forward-Forwards 2048 left _ (
    subst (λ z. Collects 2048 z (collect 2048 pending reads)) (sym e)
      (collect-Collects 2048 pending reads s))

tagged-Forwards :
    (all : List ℕ) (c : Collected)
    → Collects 10 all c
    → (id3_total : ℕ) × (parse_id3v2_total all ≡ val id3_total)
      × Forwards (drop id3_total all) (tagged c)
unfolding tagged
tagged-Forwards all stopped h = absurd h
tagged-Forwards all (ended head) (e, k) = (
  0,
  short_parse all (omega (arith, ap length e, k)),
  (
    flush_remaining head,
    [],
    0,
    all,
    [],
    refl,
    append-nil (flatten (flush_remaining head)) ∙ flatten-flush_remaining head ∙ sym e,
    sym (append-nil all),
    inl refl,
    tt,
  ),
)
tagged-Forwards all (ready head reads) (e, k, s) =
    let (n, p, p') = parse_id3v2_total-append head (stream reads) k in
    let skipped =
      subst (λ z. Skips (drop n z) (after_tag n head reads)) (sym e)
        (after_tag-Skips n head reads s) in
    (n, rw e p', rw p (after-Forwards (drop n all) (after_tag n head reads) skipped))

-- A source that is neither cancelled nor fails loses its ID3v2 tag, whose total size is 0 where there
-- is none, and then at most the bytes up to the end of an MP3 frame at the front of what follows; the
-- chunks sent and what is still to be read are the rest of the stream, in order and complete, however
-- the reads cut it, and nothing panics.
pub strip_mp3_prefix-stream :
    (reads : List ReadOutcome)
    → IsSteady reads
    → (id3_total : ℕ) × (parse_id3v2_total (stream reads) ≡ val id3_total)
      × Forwards (drop id3_total (stream reads)) (strip_mp3_prefix reads)
unfolding strip_mp3_prefix
strip_mp3_prefix-stream reads s =
    tagged-Forwards (stream reads) (collect 10 [] reads) (collect-Collects 10 [] reads s)
