-- ===== src/Server/Chunked/Rounds.antt =====
-- crates/rustyice-server/src/chunked.rs: each round of the loop of `poll_read` keeps what is owed.
use rusty_ice.Prelude.{
  ℕ, zero, suc, ◌-◌, ◌≤◌, ◌<◌, ◌≡◌, ◌∙◌, refl, sym, ap, subst, min, true, false, List, [], ◌∷◌,
  ◌++◌, length, ◌==◌, if◌then◌else◌, arith, All, length-append, append_assoc,
}
use rusty_ice.Server.Chunked.{
  Arrival, byte, not_yet, failed, short, Answer, pending, filled, error, invalid_data, poll_inner,
  run, State, next_size, payload, after_payload, trailers, done, errored, ChunkedDecoder, decoder,
  Line, line, waits, too_long, fails, find_crlf, Round, goes_on, returns, sized, paid, closed,
  round, max_size_line_bytes, max_trailer_bytes,
}
use rusty_ice.Server.Chunked.Lines.{
  crlf, IsLine, bytes_in, IsSound, append_split, Reads, poll_fill_line-Reads,
}
use rusty_ice.Server.Chunked.Body.{
  Body, chunk, last, first_line, after_line, first_trailer, after_trailer, encode, payload_of,
  IsBody, IsTrailer, Owes, Promises,
}

-- What a poll answers, by what the decoder owed and the arrivals it had left.
abbrev pub Keeps : List ℕ → ℕ → Answer → ChunkedDecoder → Type 0
Keeps out n pending d = Promises out d × (length d.inner < n)
Keeps out n (filled []) d = out ≡ []
Keeps out n (filled (b ∷ bs)) d =
    (rest : List ℕ) × (out ≡ (b ∷ bs) ++ rest) × Promises rest d × (length d.inner < n)
Keeps out n (error e) d = ⊥

abbrev pub RoundKeeps : List ℕ → ℕ → Round → Type 0
RoundKeeps out n (goes_on d) = Promises out d × (length d.inner ≤ n)
RoundKeeps out n (returns a d) = Keeps out n a d

-- What a poll of a sound reader gives.
abbrev Polled : ℕ → ℕ → List ℕ → Answer × List Arrival → Type 0
Polled cap n bytes (pending, inner) = (bytes_in inner ≡ bytes) × IsSound inner × (length inner < n)
Polled cap n bytes (filled [], inner) = bytes ≡ []
Polled cap n bytes (filled (b ∷ bs), inner) =
    (bytes ≡ (b ∷ bs) ++ bytes_in inner)
    × (length (b ∷ bs) ≤ cap)
    × IsSound inner
    × (length inner < n)
Polled cap n bytes (error e, inner) = ⊥

run-IsSound :
    (cap : ℕ) (inner : List Arrival)
    → IsSound inner
    → (bytes_in inner ≡ (run cap inner).0 ++ bytes_in (run cap inner).1)
      × (length (run cap inner).0 ≤ cap)
      × IsSound (run cap inner).1
      × (length (run cap inner).1 ≤ length inner)
run-IsSound zero inner s = (refl, omega arith, s, omega arith)
run-IsSound (suc cap) [] s = (refl, omega arith, s, omega arith)
run-IsSound (suc cap) (byte b ∷ inner) s =
    let (e, k, s', h) = run-IsSound cap inner s in (ap (◌∷◌ b) e, omega arith, s', omega arith)
run-IsSound (suc cap) (not_yet ∷ inner) s = (refl, omega arith, s, omega arith)
run-IsSound (suc cap) (failed ∷ inner) s = absurd s
run-IsSound (suc cap) (short ∷ inner) s = (refl, omega arith, s, omega arith)

poll_inner-Polled :
    (cap n : ℕ) (inner : List Arrival)
    → IsSound inner
    → length inner ≤ n
    → Polled (suc cap) n (bytes_in inner) (poll_inner (suc cap) inner)
poll_inner-Polled cap n [] s h = refl
poll_inner-Polled cap n (byte b ∷ inner) s h =
    let (e, k, s', l) = run-IsSound cap inner s in (ap (◌∷◌ b) e, omega arith, s', omega arith)
poll_inner-Polled cap n (not_yet ∷ inner) s h = (refl, s, omega arith)
poll_inner-Polled cap n (failed ∷ inner) s h = absurd s
poll_inner-Polled cap n (short ∷ inner) s h = poll_inner-Polled cap n inner s (omega arith)

-- A poll in the middle of a chunk's data.
paid-Keeps :
    (cap n m : ℕ) (out bytes : List ℕ) (polled : Answer × List Arrival)
    → suc cap ≤ suc m
    → Owes (payload (suc m)) [] bytes out
    → Polled (suc cap) n bytes polled
    → RoundKeeps out n (paid (suc m) [] polled)
unfolding paid
paid-Keeps cap n m out bytes (pending, inner) h o (e, s, k) =
    (record { sound = s; owes = subst (λ z. Owes (payload (suc m)) [] z out) (sym e) o }, k)
paid-Keeps cap n m out bytes (error e, inner) h o p = p
paid-Keeps cap n m out bytes (filled [], inner) h (b, bs, ok, _, size, e, f) p =
    absurd (omega (arith, ap length e, ap length p, length-append bs (crlf ++ encode b)))
paid-Keeps cap n m out bytes (filled (c ∷ cs), inner) h (b, bs, ok, _, size, e, f) (g, k, s, l) =
    let (rest, e1, e2) =
      append_split bs (crlf ++ encode b) (c ∷ cs) (bytes_in inner) (sym e ∙ g) (omega arith) in
    let left : length rest ≡ suc m - length (c ∷ cs) =
      omega (arith, ap length e1, length-append (c ∷ cs) rest) in
    (
      rest ++ payload_of b,
      f ∙ ap (λ z. z ++ payload_of b) e1 ∙ append_assoc (c ∷ cs) rest (payload_of b),
      record { sound = s; owes = (b, rest, ok, refl, left, e2, refl) },
      l,
    )

-- A poll for the CRLF behind a chunk's data.
closed-Keeps :
    (seen n : ℕ) (out bytes : List ℕ) (polled : Answer × List Arrival)
    → Owes (after_payload seen) [] bytes out
    → Polled 1 n bytes polled
    → RoundKeeps out n (closed seen [] polled)
unfolding closed
closed-Keeps seen n out bytes (pending, inner) o (e, s, k) =
    (record { sound = s; owes = subst (λ z. Owes (after_payload seen) [] z out) (sym e) o }, k)
closed-Keeps seen n out bytes (error e, inner) o p = p
closed-Keeps zero n out bytes (filled [], inner) (b, ok, _, e, f) p =
    absurd (omega (arith, ap length e, ap length p))
closed-Keeps zero n out bytes (filled (c ∷ c' ∷ cs), inner) o (g, k, s, l) = absurd (omega arith)
closed-Keeps zero n out bytes (filled (c ∷ []), inner) (b, ok, _, e, f) (g, k, s, l) =
    let whole : b'\r' ∷ b'\n' ∷ encode b ≡ c ∷ bytes_in inner = sym e ∙ g in
    let same : c ≡ b'\r' = cc in
    let others : bytes_in inner ≡ b'\n' ∷ encode b = cc in
    let wanted : (c == b'\r') ≡ true = ground (arith, same) in
    rw wanted (record { sound = s; owes = (b, ok, refl, others, f) }, omega arith)
closed-Keeps (suc zero) n out bytes (filled [], inner) (b, ok, _, e, f) p =
    absurd (omega (arith, ap length e, ap length p))
closed-Keeps (suc zero) n out bytes (filled (c ∷ c' ∷ cs), inner) o (g, k, s, l) =
    absurd (omega arith)
closed-Keeps (suc zero) n out bytes (filled (c ∷ []), inner) (b, ok, _, e, f) (g, k, s, l) =
    let whole : b'\n' ∷ encode b ≡ c ∷ bytes_in inner = sym e ∙ g in
    let same : c ≡ b'\n' = cc in
    let others : bytes_in inner ≡ encode b = cc in
    let again : bytes_in inner ≡ (first_line b ++ crlf) ++ after_line b =
      others ∙ sym (append_assoc (first_line b) crlf (after_line b)) in
    let wanted : (c == b'\n') ≡ true = ground (arith, same) in
    rw wanted
      (record { sound = s; owes = (b, first_line b ++ crlf, ok, refl, again, f) }, omega arith)
closed-Keeps (suc (suc seen)) n out bytes (filled bs, inner) o p = absurd o

-- A size line was read in full.
sized-Keeps :
    (n : ℕ) (out : List ℕ) (b : Body) (inner : List Arrival)
    → IsBody b
    → bytes_in inner ≡ after_line b
    → IsSound inner
    → length inner ≤ n
    → out ≡ payload_of b
    → RoundKeeps out n (sized (first_line b) [] inner)
unfolding sized
sized-Keeps n out (chunk l bs b) inner ok e s k f =
    let read = ok.0.2 in
    let more : (length bs == 0) ≡ false = ground (arith, ok.1) in
    rw (sized, read, more) (record { sound = s; owes = (b, bs, ok.2, refl, refl, e, f) }, k)
sized-Keeps n out (last l ls extra) inner ok e s k f =
    let read = ok.0.2 in
    let again = e ∙ sym (append_assoc (first_trailer ls) crlf (after_trailer ls extra)) in
    rw (sized, read)
      (record { sound = s; owes = (ls, extra, first_trailer ls ++ crlf, ok.1, refl, again, f) }, k)

size_line-Keeps :
    (n : ℕ) (out : List ℕ) (b : Body) (r : Line)
    → IsBody b
    → out ≡ payload_of b
    → Reads (first_line b) (after_line b) n r
    → RoundKeeps out n (elim r [
      | line l scratch inner ↦ sized l scratch inner
      | waits scratch inner ↦ returns pending (decoder inner next_size scratch)
      | too_long scratch inner ↦ returns (error invalid_data) (decoder inner errored scratch)
      | fails e scratch inner ↦ returns (error e) (decoder inner next_size scratch)
    ])
size_line-Keeps n out b (line l scratch inner) ok f (e1, e2, e3, s, k) =
    rw (e1, e2) (sized-Keeps n out b inner ok e3 s k f)
size_line-Keeps n out b (waits scratch inner) ok f (t, e1, e2, s, k) =
    (record { sound = s; owes = (b, t, ok, e1, e2, f) }, k)
size_line-Keeps n out b (too_long scratch inner) ok f p = p
size_line-Keeps n out b (fails e scratch inner) ok f p = p

trailer-Keeps :
    (n : ℕ) (out : List ℕ) (ls : List (List ℕ)) (extra : List ℕ) (r : Line)
    → All IsTrailer ls
    → out ≡ []
    → Reads (first_trailer ls) (after_trailer ls extra) n r
    → RoundKeeps out n (elim r [
      | line l scratch inner ↦
          goes_on (decoder inner (if length l == 0 then done else trailers) scratch)
      | waits scratch inner ↦ returns pending (decoder inner trailers scratch)
      | too_long scratch inner ↦ returns (error invalid_data) (decoder inner errored scratch)
      | fails e scratch inner ↦ returns (error e) (decoder inner trailers scratch)
    ])
trailer-Keeps n out [] extra (line l scratch inner) ok f (e1, e2, e3, s, k) =
    rw e1 (record { sound = s; owes = f }, k)
trailer-Keeps n out (x ∷ ls) extra (line l scratch inner) ok f (e1, e2, e3, s, k) =
    let more : (length x == 0) ≡ false = ground (arith, ok.0.2) in
    let again = e3 ∙ sym (append_assoc (first_trailer ls) crlf (after_trailer ls extra)) in
    rw (e1, more, e2)
      (record { sound = s; owes = (ls, extra, first_trailer ls ++ crlf, ok.1, refl, again, f) }, k)
trailer-Keeps n out ls extra (waits scratch inner) ok f (t, e1, e2, s, k) =
    (record { sound = s; owes = (ls, extra, t, ok, e1, e2, f) }, k)
trailer-Keeps n out ls extra (too_long scratch inner) ok f p = p
trailer-Keeps n out ls extra (fails e scratch inner) ok f p = p

IsBody-bound :
    (b : Body) → IsBody b → IsLine (first_line b) × (suc (suc (length (first_line b))) ≤ 64)
IsBody-bound (chunk l bs b) ok = (ok.0.0, ok.0.1)
IsBody-bound (last l ls extra) ok = (ok.0.0, ok.0.1)

blank-IsLine : IsLine []
unfolding find_crlf
blank-IsLine = refl

trailer_bound :
    (ls : List (List ℕ))
    → All IsTrailer ls
    → IsLine (first_trailer ls) × (suc (suc (length (first_trailer ls))) ≤ 4096)
trailer_bound [] ok = (blank-IsLine, omega arith)
trailer_bound (l ∷ ls) ok = (ok.0.0, ok.0.1)

empty_of : (xs : List ℕ) → length xs ≡ 0 → xs ≡ []
empty_of [] h = refl
empty_of (x ∷ xs) h = absurd (omega arith)

pub round-Keeps :
    (room : ℕ) (out : List ℕ) (inner : List Arrival) (state : State) (scratch : List ℕ)
    → 0 < room
    → Promises out (decoder inner state scratch)
    → RoundKeeps out (length inner) (round room (decoder inner state scratch))
unfolding round
round-Keeps room out inner done scratch h p = p.owes
round-Keeps room out inner errored scratch h p = absurd p.owes
round-Keeps room out inner (payload zero) scratch h p =
    let (b, bs, ok, e1, e2, e3, e4) = p.owes in
    let gone = empty_of bs e2 in
    let at_crlf = e3 ∙ ap (λ z. z ++ (crlf ++ encode b)) gone in
    let owed = e4 ∙ ap (λ z. z ++ payload_of b) gone in
    (record { sound = p.sound; owes = (b, ok, e1, at_crlf, owed) }, omega arith)
round-Keeps room out inner (payload (suc m)) scratch h p =
    let (b, bs, ok, e1, e2, e3, e4) = p.owes in
    let open_ : (room == 0) ≡ false = ground (arith, h) in
    let cap = min (suc m) room - 1 in
    let size : min (suc m) room ≡ suc cap = omega (arith, h) in
    let polled = poll_inner-Polled cap (length inner) inner p.sound (omega arith) in
    rw (open_, e1, size)
      (paid-Keeps cap (length inner) m out (bytes_in inner) _ (omega arith)
        (b, bs, ok, refl, e2, e3, e4) polled)
round-Keeps room out inner next_size scratch h p =
    let (b, t, ok, e1, e2, e3) = p.owes in
    let (l, k) = IsBody-bound b ok in
    size_line-Keeps _ out b _ ok e3 (
      poll_fill_line-Reads max_size_line_bytes (first_line b) (after_line b) scratch t inner l k e1
        e2 p.sound)
round-Keeps room out inner trailers scratch h p =
    let (ls, extra, t, ok, e1, e2, e3) = p.owes in
    let (l, k) = trailer_bound ls ok in
    trailer-Keeps _ out ls extra _ ok e3 (
      poll_fill_line-Reads max_trailer_bytes (first_trailer ls) (after_trailer ls extra) scratch t
        inner l k e1 e2 p.sound)
round-Keeps room out inner (after_payload zero) scratch h p =
    let (b, ok, e1, e2, e3) = p.owes in
    rw e1 (
      closed-Keeps 0 _ out _ _ (b, ok, refl, e2, e3)
        (poll_inner-Polled 0 _ inner p.sound (omega arith)))
round-Keeps room out inner (after_payload (suc zero)) scratch h p =
    let (b, ok, e1, e2, e3) = p.owes in
    rw e1 (
      closed-Keeps 1 _ out _ _ (b, ok, refl, e2, e3)
        (poll_inner-Polled 0 _ inner p.sound (omega arith)))
round-Keeps room out inner (after_payload (suc (suc n))) scratch h p = absurd p.owes
