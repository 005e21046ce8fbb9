-- ===== src/Server/Chunked/Total.antt =====
-- crates/rustyice-server/src/chunked.rs: the loop of `poll_read` ends.
use rusty_ice.Prelude.{
  ℕ, zero, suc, ◌+◌, ◌*◌, ◌≤◌, ◌<◌, ◌≡◌, ◌⊎◌, inl, inr, refl, subst, false, some, List, [], ◌∷◌,
  ◌++◌, length, ◌==◌, if◌then◌else◌, arith, length-append, length-drop, Bool-cases, Option-cases,
}
use rusty_ice.Server.Chunked.Size.{parse_chunk_size}
use rusty_ice.Server.Chunked.{
  Arrival, byte, not_yet, failed, short, Answer, pending, filled, error, invalid_data, poll_inner,
  run, State, next_size, payload, after_payload, trailers, done, errored, ChunkedDecoder, decoder,
  find_crlf, Line, line, waits, too_long, fails, line_or, poll_fill_line, Round, goes_on, returns,
  sized, paid, closed, round, loop, rounds_left, poll_read,
}

find_crlf_bound : (xs : List ℕ) (pos : ℕ) → find_crlf xs ≡ some pos → suc (suc pos) ≤ length xs
unfolding find_crlf
find_crlf_bound [] pos h = absurd cc
find_crlf_bound (a ∷ []) pos h = absurd cc
find_crlf_bound (a ∷ b ∷ xs) pos h = elim (Option-cases (find_crlf (b ∷ xs))) [
  | inl missing ↦ ground (arith, missing, h)
  | inr (i, found) ↦ ground (arith, found, h, find_crlf_bound (b ∷ xs) i found)
]

-- A line returned has left the scratch buffer and the reader with its CRLF.
abbrev Shorter : ℕ → Line → Type 0
Shorter n (line l scratch inner) = suc (suc (length inner + length scratch)) ≤ n
Shorter n _ = Unit

line_or-Shorter :
    (max n : ℕ) (scratch : List ℕ) (inner : List Arrival) (polled : Line)
    → length inner + length scratch ≤ n
    → Shorter n polled
    → Shorter n (line_or max scratch inner polled)
unfolding line_or
line_or-Shorter max n scratch inner polled h k = elim (Option-cases (find_crlf scratch)) [
  | inl missing ↦ ground (arith, missing, k)
  | inr (pos, found) ↦
      ground (arith, found, find_crlf_bound scratch pos found, length-drop (suc (suc pos)) scratch)
]

poll_fill_line-Shorter :
    (max n : ℕ) (scratch : List ℕ) (inner : List Arrival)
    → length inner + length scratch ≤ n
    → Shorter n (poll_fill_line max scratch inner)
unfolding poll_fill_line
poll_fill_line-Shorter max n scratch [] h = line_or-Shorter max n scratch [] _ h tt
poll_fill_line-Shorter max n scratch (not_yet ∷ inner) h = line_or-Shorter max n scratch _ _ h tt
poll_fill_line-Shorter max n scratch (failed ∷ inner) h = line_or-Shorter max n scratch _ _ h tt
poll_fill_line-Shorter max n scratch (short ∷ inner) h =
    poll_fill_line-Shorter max n scratch inner (omega arith)
poll_fill_line-Shorter max n scratch (byte b ∷ inner) h = line_or-Shorter max n scratch _ _ h (
    poll_fill_line-Shorter max n (scratch ++ (b ∷ [])) inner
      (omega (arith, h, length-append scratch (b ∷ []))))

length-run : (cap : ℕ) (inner : List Arrival) → length (run cap inner).1 ≤ length inner
length-run zero inner = omega arith
length-run (suc cap) [] = omega arith
length-run (suc cap) (byte b ∷ inner) = omega (arith, length-run cap inner)
length-run (suc cap) (not_yet ∷ inner) = omega arith
length-run (suc cap) (failed ∷ inner) = omega arith
length-run (suc cap) (short ∷ inner) = omega arith

abbrev weight : State → ℕ
weight (payload n) = 1
weight _ = 0

abbrev measure : ChunkedDecoder → ℕ
measure d = 2 * (length d.inner + length d.scratch) + weight d.state

abbrev Shrinks : ℕ → Round → Type 0
Shrinks n (goes_on d) = measure d < n
Shrinks n (returns a d) = Unit

closed-Shrinks :
    (seen n : ℕ) (scratch : List ℕ) (inner : List Arrival)
    → 2 * (length inner + length scratch) ≤ n
    → Shrinks n (closed seen scratch (poll_inner 1 inner))
unfolding closed
closed-Shrinks seen n scratch [] h = tt
closed-Shrinks seen n scratch (not_yet ∷ inner) h = tt
closed-Shrinks seen n scratch (failed ∷ inner) h = tt
closed-Shrinks seen n scratch (short ∷ inner) h = closed-Shrinks seen n scratch inner (omega arith)
closed-Shrinks seen n scratch (byte b ∷ inner) h =
    elim (Bool-cases (b == (if seen == 0 then b'\r' else b'\n'))) [
      | inl wanted ↦ elim (Bool-cases (suc seen == 2)) [
        | inl last ↦ rw (wanted, last) (omega arith)
        | inr first ↦ rw (wanted, first) (omega arith)
      ]
      | inr other ↦ rw other tt
    ]

paid-Shrinks :
    (n remaining : ℕ) (scratch : List ℕ) (polled : Answer × List Arrival)
    → Shrinks n (paid remaining scratch polled)
unfolding paid
paid-Shrinks n remaining scratch (pending, inner) = tt
paid-Shrinks n remaining scratch (error e, inner) = tt
paid-Shrinks n remaining scratch (filled [], inner) = tt
paid-Shrinks n remaining scratch (filled (b ∷ bs), inner) = tt

sized-Shrinks :
    (n : ℕ) (size_line scratch : List ℕ) (inner : List Arrival)
    → suc (suc (length inner + length scratch)) * 2 ≤ n
    → Shrinks n (sized size_line scratch inner)
unfolding sized
sized-Shrinks n size_line scratch inner h = elim (Option-cases (parse_chunk_size size_line)) [
  | inl bad ↦ rw (sized, bad) tt
  | inr (size, good) ↦ elim (Bool-cases (size == 0)) [
    | inl last ↦ rw (sized, good, last) (omega arith)
    | inr more ↦ rw (sized, good, more) (omega arith)
  ]
]

-- What the two states that read a line make of it.
size_line-Shrinks :
    (n m : ℕ) (l : Line)
    → Shorter n l
    → 2 * n ≤ m
    → Shrinks m (elim l [
      | line l' scratch inner ↦ sized l' scratch inner
      | waits scratch inner ↦ returns pending (decoder inner next_size scratch)
      | too_long scratch inner ↦ returns (error invalid_data) (decoder inner errored scratch)
      | fails e scratch inner ↦ returns (error e) (decoder inner next_size scratch)
    ])
size_line-Shrinks n m (line l scratch inner) h k =
    sized-Shrinks m l scratch inner (omega (arith, h))
size_line-Shrinks n m (waits scratch inner) h k = tt
size_line-Shrinks n m (too_long scratch inner) h k = tt
size_line-Shrinks n m (fails e scratch inner) h k = tt

trailer-Shrinks :
    (n m : ℕ) (l : Line)
    → Shorter n l
    → 2 * n ≤ m
    → Shrinks m (elim l [
      | line l' scratch inner ↦
          goes_on (decoder inner (if length l' == 0 then done else trailers) scratch)
      | waits scratch inner ↦ returns pending (decoder inner trailers scratch)
      | too_long scratch inner ↦ returns (error invalid_data) (decoder inner errored scratch)
      | fails e scratch inner ↦ returns (error e) (decoder inner trailers scratch)
    ])
trailer-Shrinks n m (line [] scratch inner) h k = omega (arith, h)
trailer-Shrinks n m (line (b ∷ l) scratch inner) h k =
    let more : (length (b ∷ l) == 0) ≡ false = ground arith in rw more (omega (arith, h))
trailer-Shrinks n m (waits scratch inner) h k = tt
trailer-Shrinks n m (too_long scratch inner) h k = tt
trailer-Shrinks n m (fails e scratch inner) h k = tt

round-Shrinks :
    (room : ℕ) (inner : List Arrival) (state : State) (scratch : List ℕ)
    → Shrinks (measure (decoder inner state scratch)) (round room (decoder inner state scratch))
unfolding round
round-Shrinks room inner done scratch = tt
round-Shrinks room inner errored scratch = tt
round-Shrinks room inner (payload zero) scratch = omega arith
round-Shrinks room inner (payload (suc n)) scratch = elim (Bool-cases (room == 0)) [
  | inl full ↦ rw full tt
  | inr open_ ↦ rw open_ (paid-Shrinks _ _ _ _)
]
round-Shrinks room inner next_size scratch =
    size_line-Shrinks (length inner + length scratch) _ _
      (poll_fill_line-Shorter _ _ scratch inner (omega arith)) (omega arith)
round-Shrinks room inner trailers scratch =
    trailer-Shrinks (length inner + length scratch) _ _
      (poll_fill_line-Shorter _ _ scratch inner (omega arith)) (omega arith)
round-Shrinks room inner (after_payload seen) scratch =
    closed-Shrinks seen _ scratch inner (omega arith)

pub Round-cases :
    (r : Round)
    → ((d : ChunkedDecoder) × (r ≡ goes_on d))
      ⊎ ((a : Answer) × (d : ChunkedDecoder) × (r ≡ returns a d))
Round-cases (goes_on d) = inl (d, refl)
Round-cases (returns a d) = inr (a, d, refl)

loop-some :
    (fuel room : ℕ) (d : ChunkedDecoder)
    → measure d < fuel
    → (a : Answer) × (d' : ChunkedDecoder) × (loop fuel room d ≡ some (a, d'))
unfolding loop
loop-some zero room d h = absurd (omega arith)
loop-some (suc fuel) room d h =
    let shrinks = round-Shrinks room d.inner d.state d.scratch in
    elim (Round-cases (round room d)) [
      | inl (d', e) ↦
          let smaller : measure d' < measure d = subst (Shrinks (measure d)) e shrinks in
          let (a, d2, f) = loop-some fuel room d' (omega arith) in (a, d2, rw (loop, e) f)
      | inr (a, d', e) ↦ (a, d', rw (loop, e) refl)
    ]

-- A poll always returns, whatever the reader, the buffer and the state.
pub poll_read-some :
    (room : ℕ) (d : ChunkedDecoder)
    → (a : Answer) × (d' : ChunkedDecoder) × (poll_read room d ≡ some (a, d'))
unfolding poll_read
poll_read-some room d = loop-some (rounds_left d) room d (omega (arith, weight_bound d.state))
  where
    weight_bound : (s : State) → weight s ≤ 1
    weight_bound next_size = omega arith
    weight_bound (payload n) = omega arith
    weight_bound (after_payload n) = omega arith
    weight_bound trailers = omega arith
    weight_bound done = omega arith
    weight_bound errored = omega arith
