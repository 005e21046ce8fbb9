-- ===== src/Server/Chunked.antt =====
-- crates/rustyice-server/src/chunked.rs: `ChunkedDecoder`. The inner reader is the list of what its
-- polls meet; errors keep their kind and drop their text.
pub mod Body
pub mod Lines
pub mod RoundTrip
pub mod Rounds
pub mod Size
pub mod Total
use rusty_ice.Prelude.{
  ℕ, zero, suc, ◌+◌, ◌-◌, ◌*◌, ◌≡◌, min, Bool, true, false, ◌&&◌, Option, none, some, List, [], ◌∷◌,
  ◌++◌, length, take, drop, leb, ◌==◌, if◌then◌else◌,
}
use rusty_ice.Server.Chunked.Size.{parse_chunk_size}

-- What an `AsyncRead` meets: a byte, a moment with nothing to read yet, a failure, or a place where a
-- read comes up short. A list's end is the end of the stream.
pub data Arrival : Type 0 where
  byte : ℕ → Arrival
  not_yet failed short : Arrival

pub data ErrorKind : Type 0 where
  unexpected_eof invalid_data inner_error : ErrorKind

-- `Poll<io::Result<()>>` with the bytes that the call put in the buffer.
pub data Answer : Type 0 where
  pending : Answer
  filled : List ℕ → Answer
  error : ErrorKind → Answer

-- As many bytes as there are in a row, up to the buffer's capacity.
abbrev run : ℕ → List Arrival → List ℕ × List Arrival
run zero inner = ([], inner)
run (suc cap) (byte b ∷ inner) = let (bs, rest) = run cap inner in (b ∷ bs, rest)
run (suc cap) inner = ([], inner)

-- `poll_read` of the inner reader into a buffer of this capacity.
abbrev pub poll_inner : ℕ → List Arrival → Answer × List Arrival
poll_inner cap [] = (filled [], [])
poll_inner cap (not_yet ∷ inner) = (pending, inner)
poll_inner cap (failed ∷ inner) = (error inner_error, inner)
poll_inner cap (short ∷ inner) = poll_inner cap inner
poll_inner cap (byte b ∷ inner) = let (bs, rest) = run cap (byte b ∷ inner) in (filled bs, rest)

pub data State : Type 0 where
  next_size : State
  payload : ℕ → State
  after_payload : ℕ → State
  trailers done errored : State

pub record ChunkedDecoder : Type 0 where
  pub inner : List Arrival
  pub state : State
  pub scratch : List ℕ

unfoldable pub new : List Arrival → ChunkedDecoder
new inner = record { inner = inner; state = next_size; scratch = [] }

abbrev pub max_size_line_bytes : ℕ
max_size_line_bytes = 64

abbrev pub max_trailer_bytes : ℕ
max_trailer_bytes = 4096

unfoldable pub find_crlf : List ℕ → Option ℕ
find_crlf [] = none
find_crlf (a ∷ []) = none
find_crlf (a ∷ b ∷ data') =
    let rest = find_crlf (b ∷ data') in
    if a == b'\r' && b == b'\n' then some 0 else elim rest [ none ↦ none | some i ↦ some (suc i) ]

-- What `poll_fill_line` returns, with the scratch buffer and the reader it leaves.
pub data Line : Type 0 where
  line : List ℕ → List ℕ → List Arrival → Line
  waits : List ℕ → List Arrival → Line
  too_long : List ℕ → List Arrival → Line
  fails : ErrorKind → List ℕ → List Arrival → Line

-- The two tests at the head of its loop, before the poll whose outcome is `polled`.
unfoldable pub line_or : ℕ → List ℕ → List Arrival → Line → Line
line_or max_bytes scratch inner polled = elim (find_crlf scratch) [
  | some pos ↦ line (take pos scratch) (drop (suc (suc pos)) scratch) inner
  | none ↦ if leb max_bytes (length scratch) then too_long scratch inner else polled
]

unfoldable pub poll_fill_line : ℕ → List ℕ → List Arrival → Line
poll_fill_line max_bytes scratch [] = line_or max_bytes scratch [] (fails unexpected_eof scratch [])
poll_fill_line max_bytes scratch (not_yet ∷ inner) =
    line_or max_bytes scratch (not_yet ∷ inner) (waits scratch inner)
poll_fill_line max_bytes scratch (failed ∷ inner) =
    line_or max_bytes scratch (failed ∷ inner) (fails inner_error scratch inner)
poll_fill_line max_bytes scratch (short ∷ inner) = poll_fill_line max_bytes scratch inner
poll_fill_line max_bytes scratch (byte b ∷ inner) =
    line_or max_bytes scratch (byte b ∷ inner)
      (poll_fill_line max_bytes (scratch ++ (b ∷ [])) inner)

-- One round of the loop of `poll_read`.
pub data Round : Type 0 where
  goes_on : ChunkedDecoder → Round
  returns : Answer → ChunkedDecoder → Round

abbrev decoder : List Arrival → State → List ℕ → ChunkedDecoder
decoder inner state scratch = record { inner = inner; state = state; scratch = scratch }

unfoldable pub sized : List ℕ → List ℕ → List Arrival → Round
sized size_line scratch inner = elim (parse_chunk_size size_line) [
  | none ↦ returns (error invalid_data) (decoder inner errored scratch)
  | some n ↦ goes_on (decoder inner (if n == 0 then trailers else payload n) scratch)
]

-- What follows the poll for payload, with `remaining` bytes of the chunk to come.
unfoldable pub paid : ℕ → List ℕ → Answer × List Arrival → Round
paid remaining scratch (pending, inner) =
    returns pending (decoder inner (payload remaining) scratch)
paid remaining scratch (error e, inner) = returns (error e) (decoder inner errored scratch)
paid remaining scratch (filled [], inner) =
    returns (error unexpected_eof) (decoder inner errored scratch)
paid remaining scratch (filled (b ∷ bs), inner) =
    returns (filled (b ∷ bs)) (decoder inner (payload (remaining - length (b ∷ bs))) scratch)

-- What follows the poll for one byte of the CRLF after a payload.
unfoldable pub closed : ℕ → List ℕ → Answer × List Arrival → Round
closed seen scratch (pending, inner) = returns pending (decoder inner (after_payload seen) scratch)
closed seen scratch (error e, inner) = returns (error e) (decoder inner errored scratch)
closed seen scratch (filled [], inner) =
    returns (error unexpected_eof) (decoder inner errored scratch)
closed seen scratch (filled (b ∷ _), inner) =
    let want = if seen == 0 then b'\r' else b'\n' in
    if b == want
    then goes_on
        (decoder inner (if suc seen == 2 then next_size else after_payload (suc seen)) scratch)
    else returns (error invalid_data) (decoder inner errored scratch)

unfoldable pub round : ℕ → ChunkedDecoder → Round
round room d = elim d.state [
  | done ↦ returns (filled []) d
  | errored ↦ returns (filled []) d
  | payload zero ↦ goes_on (record d { state = after_payload 0 })
  | payload (suc n) ↦
      if room == 0
      then returns (filled []) d
      else paid (suc n) d.scratch (poll_inner (min (suc n) room) d.inner)
  | next_size ↦ elim (poll_fill_line max_size_line_bytes d.scratch d.inner) [
    | line l scratch inner ↦ sized l scratch inner
    | waits scratch inner ↦ returns pending (decoder inner next_size scratch)
    | too_long scratch inner ↦ returns (error invalid_data) (decoder inner errored scratch)
    | fails e scratch inner ↦ returns (error e) (decoder inner next_size scratch)
  ]
  | after_payload seen ↦ closed seen d.scratch (poll_inner 1 d.inner)
  | trailers ↦ elim (poll_fill_line max_trailer_bytes d.scratch d.inner) [
    | line l scratch inner ↦
        goes_on (decoder inner (if length l == 0 then done else trailers) scratch)
    | waits scratch inner ↦ returns pending (decoder inner trailers scratch)
    | too_long scratch inner ↦ returns (error invalid_data) (decoder inner errored scratch)
    | fails e scratch inner ↦ returns (error e) (decoder inner trailers scratch)
  ]
]

-- The loop, with fuel for its rounds, on a buffer with `room` bytes left.
unfoldable pub loop : ℕ → ℕ → ChunkedDecoder → Option (Answer × ChunkedDecoder)
loop zero room d = none
loop (suc fuel) room d = elim (round room d) [
  | goes_on d' ↦ loop fuel room d'
  | returns a d' ↦ some (a, d')
]

-- Every byte that is still to be read costs at most two rounds.
abbrev pub rounds_left : ChunkedDecoder → ℕ
rounds_left d = 2 * (length d.inner + length d.scratch) + 2

unfoldable pub poll_read : ℕ → ChunkedDecoder → Option (Answer × ChunkedDecoder)
poll_read room d = loop (rounds_left d) room d
