-- ===== src/Server/Chunked/RoundTrip.antt =====
-- crates/rustyice-server/src/chunked.rs: a chunked body is read back.
use rusty_ice.Prelude.{
  ℕ, zero, suc, ◌≤◌, ◌<◌, ◌≡◌, ◌∙◌, inl, inr, refl, sym, ap, subst, Option, none, some, List, [],
  ◌∷◌, ◌++◌, length, arith, append_assoc,
}
use rusty_ice.Server.Chunked.{
  Arrival, Answer, pending, filled, error, ChunkedDecoder, new, round, loop, rounds_left, poll_read,
}
use rusty_ice.Server.Chunked.Lines.{crlf, bytes_in, IsSound}
use rusty_ice.Server.Chunked.Body.{
  Body, first_line, after_line, encode, payload_of, IsBody, Promises,
}
use rusty_ice.Server.Chunked.Total.{Round-cases, poll_read-some}
use rusty_ice.Server.Chunked.Rounds.{Keeps, RoundKeeps, round-Keeps}

weaken-Keeps :
    (out : List ℕ) (n m : ℕ) (a : Answer) (d : ChunkedDecoder)
    → n ≤ m
    → Keeps out n a d
    → Keeps out m a d
weaken-Keeps out n m pending d h (p, k) = (p, omega arith)
weaken-Keeps out n m (filled []) d h k = k
weaken-Keeps out n m (filled (b ∷ bs)) d h (rest, e, p, k) = (rest, e, p, omega arith)
weaken-Keeps out n m (error e) d h k = k

loop-Keeps :
    (fuel room : ℕ) (out : List ℕ) (d : ChunkedDecoder) (a : Answer) (d' : ChunkedDecoder)
    → 0 < room
    → Promises out d
    → loop fuel room d ≡ some (a, d')
    → Keeps out (length d.inner) a d'
unfolding loop
loop-Keeps zero room out d a d' h p e = absurd cc
loop-Keeps (suc fuel) room out d a d' h p e =
    let kept = round-Keeps room out d.inner d.state d.scratch h p in
    elim (Round-cases (round room d)) [
      | inl (d1, f) ↦
          let (q, k) = subst (RoundKeeps out (length d.inner)) f kept in
          weaken-Keeps out (length d1.inner) (length d.inner) a d' k
            (loop-Keeps fuel room out d1 a d' h q (ground (arith, e, f)))
      | inr (a1, d1, f) ↦
          let same_answer : a1 ≡ a = ground (arith, e, f) in
          let same_decoder : d1 ≡ d' = ground (arith, e, f) in
          rw (sym same_answer, sym same_decoder) (subst (RoundKeeps out (length d.inner)) f kept)
    ]

-- A client of the decoder: it polls with a buffer of `rooms k` bytes when `k` polls are left to it,
-- polls again after `pending`, and stops at the end of the stream or an error.
pub read_to_end : ℕ → (ℕ → ℕ) → ChunkedDecoder → Option (List ℕ)
read_to_end zero rooms d = none
read_to_end (suc fuel) rooms d = elim (poll_read (rooms fuel) d) [
  | none ↦ none
  | some (pending, d') ↦ read_to_end fuel rooms d'
  | some (error e, d') ↦ none
  | some (filled [], d') ↦ some []
  | some (filled (b ∷ bs), d') ↦ elim (read_to_end fuel rooms d') [
    | none ↦ none
    | some rest ↦ some ((b ∷ bs) ++ rest)
  ]
]

poll_read-Keeps :
    (room : ℕ) (out : List ℕ) (d : ChunkedDecoder) (a : Answer) (d' : ChunkedDecoder)
    → 0 < room
    → Promises out d
    → poll_read room d ≡ some (a, d')
    → Keeps out (length d.inner) a d'
unfolding poll_read
poll_read-Keeps room out d a d' h p e = loop-Keeps (rounds_left d) room out d a d' h p e

-- The client after one poll, if it ends well from every decoder that the poll may leave.
after_poll :
    (fuel : ℕ) (rooms : ℕ → ℕ) (out : List ℕ) (d : ChunkedDecoder) (a : Answer)
    (d' : ChunkedDecoder)
    → poll_read (rooms fuel) d ≡ some (a, d')
    → Keeps out (length d.inner) a d'
    → length d.inner ≤ fuel
    → ((rest : List ℕ)
        → length d'.inner < fuel
        → Promises rest d'
        → read_to_end fuel rooms d' ≡ some rest)
    → read_to_end (suc fuel) rooms d ≡ some out
unfolding read_to_end
after_poll fuel rooms out d pending d' e (p, k) h next =
    rw (read_to_end, e) (next out (omega arith) p)
after_poll fuel rooms out d (filled []) d' e k h next = rw (read_to_end, e) (ap some (sym k))
after_poll fuel rooms out d (filled (b ∷ bs)) d' e (rest, f, p, k) h next =
    let read = next rest (omega arith) p in rw (read_to_end, e, read) (ap some (sym f))
after_poll fuel rooms out d (error x) d' e k h next = absurd k

Promises-read_to_end :
    (fuel : ℕ) (rooms : ℕ → ℕ) (out : List ℕ) (d : ChunkedDecoder)
    → length d.inner < fuel
    → ((k : ℕ) → 0 < rooms k)
    → Promises out d
    → read_to_end fuel rooms d ≡ some out
Promises-read_to_end zero rooms out d h r p = absurd (omega arith)
Promises-read_to_end (suc fuel) rooms out d h r p =
    let (a, d', e) = poll_read-some (rooms fuel) d in
    after_poll fuel rooms out d a d' e (poll_read-Keeps (rooms fuel) out d a d' (r fuel) p e)
      (omega arith) (λ rest k q. Promises-read_to_end fuel rooms rest d' k r q)

-- A chunked body that arrives without a failure of the connection is read back, whatever pieces it
-- arrives in and whatever the sizes of the buffers it is read into, if none is empty: the client gets
-- the payload of the chunks in order and then the end of the stream, whatever follows the body. One
-- poll more than there are arrivals is enough.
pub read_to_end-encode :
    (b : Body) (inner : List Arrival) (rooms : ℕ → ℕ)
    → IsBody b
    → IsSound inner
    → bytes_in inner ≡ encode b
    → ((k : ℕ) → 0 < rooms k)
    → read_to_end (suc (length inner)) rooms (new inner) ≡ some (payload_of b)
unfolding new
read_to_end-encode b inner rooms ok s e r =
    let again = e ∙ sym (append_assoc (first_line b) crlf (after_line b)) in
    Promises-read_to_end (suc (length inner)) rooms (payload_of b) _ (omega arith) r
      (record { sound = s; owes = (b, first_line b ++ crlf, ok, refl, again, refl) })
