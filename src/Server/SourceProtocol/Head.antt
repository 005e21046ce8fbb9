-- ===== src/Server/SourceProtocol/Head.antt =====
-- crates/rustyice-server/src/source_protocol.rs: the request head is read, and the body that follows it.
-- The parser of httparse is an argument; what each read of the socket gives is a list, at whose end
-- nothing comes any more and the wait for headers times out.
use rusty_ice.Prelude.{
  ℕ, ◌*◌, ◌≤◌, ◌≡◌, refl, subst, inl, inr, Option, none, some, List, [], ◌∷◌, ◌++◌, length, take,
  drop, ltb, if◌then◌else◌, arith, append_assoc, take-append-drop, Bool-cases,
}
use rusty_ice.Core.Mount.{Text}
use rusty_ice.Server.SourceHeaders.{Headers}

abbrev pub max_header_bytes : ℕ
max_header_bytes = 16 * 1024

pub data Read : Type 0 where
  bytes : List ℕ → Read
  eof io_error timed_out : Read

-- What the parser says of a buffer: how much it took, the path if there is one, and the headers.
pub data Parse : Type 0 where
  complete : ℕ → Option Text → Headers → Parse
  partial bad : Parse

pub data HeadError : Type 0 where
  closed failed late too_large missing_path bad_request : HeadError

-- `ParsedHead`, with the reads that are still to come.
pub record ParsedHead : Type 0 where
  pub path : Text
  pub headers : Headers
  pub leftover : List ℕ
  pub rest : List Read

pub data Head : Type 0 where
  error : HeadError → Head
  parsed : ParsedHead → Head

-- What becomes of a buffer that is not too large; `more` is the loop's next round.
unfoldable pub parse_round : Parse → List ℕ → List Read → Head → Head
parse_round (complete consumed none headers) buf rest more = error missing_path
parse_round (complete consumed (some path) headers) buf rest more =
    parsed (record { path = path; headers = headers; leftover = drop consumed buf; rest = rest })
parse_round partial buf rest more = more
parse_round bad buf rest more = error bad_request

-- A read of no bytes is the end of the stream.
unfoldable pub read_request_head : (List ℕ → Parse) → List ℕ → List Read → Head
read_request_head parse buf [] = error late
read_request_head parse buf (eof ∷ rs) = error closed
read_request_head parse buf (io_error ∷ rs) = error failed
read_request_head parse buf (timed_out ∷ rs) = error late
read_request_head parse buf (bytes [] ∷ rs) = error closed
read_request_head parse buf (bytes (b ∷ bs) ∷ rs) =
    let buf' = buf ++ (b ∷ bs) in
    let more = read_request_head parse buf' rs in
    if ltb max_header_bytes (length buf')
    then error too_large
    else parse_round (parse buf') buf' rs more

abbrev pub data_of : List Read → List ℕ
data_of [] = []
data_of (bytes bs ∷ rs) = bs ++ data_of rs
data_of (_ ∷ rs) = data_of rs

-- The head is parsed from the start of the stream, within the limit on its size, and what follows it,
-- that is the bytes left over and those still to be read, is the rest of the stream.
abbrev pub IsSplit : (List ℕ → Parse) → List ℕ → ParsedHead → Type 0
IsSplit parse stream h =
    (buf : List ℕ) × (consumed : ℕ) × (parse buf ≡ complete consumed (some h.path) h.headers)
    × (length buf ≤ max_header_bytes)
    × (take consumed buf ++ (h.leftover ++ data_of h.rest) ≡ stream)

parse_round-IsSplit :
    (parse : List ℕ → Parse) (p : Parse) (buf : List ℕ) (rs : List Read) (more : Head)
    (h : ParsedHead)
    → parse buf ≡ p
    → length buf ≤ max_header_bytes
    → (more ≡ parsed h → IsSplit parse (buf ++ data_of rs) h)
    → parse_round p buf rs more ≡ parsed h
    → IsSplit parse (buf ++ data_of rs) h
unfolding parse_round
parse_round-IsSplit parse (complete consumed none headers) buf rs more h e small later got = cc
parse_round-IsSplit parse (complete consumed (some path) headers) buf rs more h e small later got =
    let there : ParsedHead = record {
      path = path;
      headers = headers;
      leftover = drop consumed buf;
      rest = rs;
    } in
    let same : there ≡ h = cc in
    let whole = append_assoc (take consumed buf) (drop consumed buf) (data_of rs) in
    subst (IsSplit parse (buf ++ data_of rs)) same
      (buf, consumed, e, small, ground (arith, whole, take-append-drop consumed buf))
parse_round-IsSplit parse partial buf rs more h e small later got = later got
parse_round-IsSplit parse bad buf rs more h e small later got = cc

-- When a request head is parsed, it is what the parser makes of a start of the stream of at most
-- 16 KiB, and the bytes left over with those still to come are the stream behind what it consumed.
pub read_request_head-IsSplit :
    (parse : List ℕ → Parse) (buf : List ℕ) (rs : List Read) (h : ParsedHead)
    → read_request_head parse buf rs ≡ parsed h
    → IsSplit parse (buf ++ data_of rs) h
unfolding read_request_head
read_request_head-IsSplit parse buf [] h got = cc
read_request_head-IsSplit parse buf (eof ∷ rs) h got = cc
read_request_head-IsSplit parse buf (io_error ∷ rs) h got = cc
read_request_head-IsSplit parse buf (timed_out ∷ rs) h got = cc
read_request_head-IsSplit parse buf (bytes [] ∷ rs) h got = cc
read_request_head-IsSplit parse buf (bytes (b ∷ bs) ∷ rs) h got =
    let buf' = buf ++ (b ∷ bs) in
    let more = read_request_head parse buf' rs in
    elim (Bool-cases (ltb max_header_bytes (length buf'))) [
      | inl large ↦ absurd (ground (arith, large, got))
      | inr small ↦
          subst (λ s. IsSplit parse s h) (append_assoc buf (b ∷ bs) (data_of rs))
            (parse_round-IsSplit parse (parse buf') buf' rs more h refl (ground (arith, small))
              (read_request_head-IsSplit parse buf' rs h) (ground (arith, small, got)))
    ]
