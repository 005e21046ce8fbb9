-- ===== src/Server/Chunked/Body.antt =====
-- Chunked bodies as a sender writes them (RFC 7230, section 4.1), for the decoder of
-- crates/rustyice-server/src/chunked.rs, and what the decoder owes in the middle of one.
use rusty_ice.Prelude.{ℕ, zero, suc, ◌≤◌, ◌<◌, ◌≡◌, some, List, [], ◌∷◌, ◌++◌, length, All}
use rusty_ice.Server.Chunked.Size.{parse_chunk_size}
use rusty_ice.Server.Chunked.{
  State, next_size, payload, after_payload, trailers, done, errored, ChunkedDecoder,
  max_size_line_bytes, max_trailer_bytes,
}
use rusty_ice.Server.Chunked.Lines.{crlf, IsLine, bytes_in, IsSound}

-- A size line and the data behind it; the size line of the last chunk, the trailer lines, and
-- whatever the connection carries behind the body.
pub data Body : Type 0 where
  chunk : List ℕ → List ℕ → Body → Body
  last : List ℕ → List (List ℕ) → List ℕ → Body

-- The lines of the trailer section and the blank line, cut behind the first CRLF.
abbrev pub first_trailer : List (List ℕ) → List ℕ
first_trailer [] = []
first_trailer (l ∷ ls) = l

abbrev pub after_trailer : List (List ℕ) → List ℕ → List ℕ
after_trailer [] extra = extra
after_trailer (l ∷ ls) extra = first_trailer ls ++ (crlf ++ after_trailer ls extra)

abbrev pub first_line : Body → List ℕ
first_line (chunk l bs b) = l
first_line (last l ls extra) = l

abbrev pub after_line : Body → List ℕ
after_line (chunk l bs b) = bs ++ (crlf ++ (first_line b ++ (crlf ++ after_line b)))
after_line (last l ls extra) = first_trailer ls ++ (crlf ++ after_trailer ls extra)

abbrev pub encode : Body → List ℕ
encode b = first_line b ++ (crlf ++ after_line b)

abbrev pub payload_of : Body → List ℕ
payload_of (chunk l bs b) = bs ++ payload_of b
payload_of (last l ls extra) = []

abbrev pub IsSizeLine : List ℕ → ℕ → Type 0
IsSizeLine l n =
    IsLine l × (suc (suc (length l)) ≤ max_size_line_bytes) × (parse_chunk_size l ≡ some n)

abbrev pub IsTrailer : List ℕ → Type 0
IsTrailer l = IsLine l × (suc (suc (length l)) ≤ max_trailer_bytes) × (0 < length l)

-- Every size line is read as the length of its data, which only the last chunk has 0 of; lines keep
-- within the limits of the decoder.
abbrev pub IsBody : Body → Type 0
IsBody (chunk l bs b) = IsSizeLine l (length bs) × (0 < length bs) × IsBody b
IsBody (last l ls extra) = IsSizeLine l 0 × All IsTrailer ls

-- What is to come of the payload, by the decoder's state and the bytes it has not looked at.
abbrev pub Owes : State → List ℕ → List ℕ → List ℕ → Type 0
Owes next_size scratch bytes out =
    (b : Body) × (t : List ℕ) × IsBody b
    × (scratch ++ t ≡ first_line b ++ crlf)
    × (bytes ≡ t ++ after_line b)
    × (out ≡ payload_of b)
Owes (payload n) scratch bytes out =
    (b : Body) × (bs : List ℕ) × IsBody b
    × (scratch ≡ [])
    × (length bs ≡ n)
    × (bytes ≡ bs ++ (crlf ++ encode b))
    × (out ≡ bs ++ payload_of b)
Owes (after_payload zero) scratch bytes out =
    (b : Body) × IsBody b × (scratch ≡ []) × (bytes ≡ crlf ++ encode b) × (out ≡ payload_of b)
Owes (after_payload (suc zero)) scratch bytes out =
    (b : Body) × IsBody b × (scratch ≡ []) × (bytes ≡ b'\n' ∷ encode b) × (out ≡ payload_of b)
Owes (after_payload (suc (suc n))) scratch bytes out = ⊥
Owes trailers scratch bytes out =
    (ls : List (List ℕ)) × (extra : List ℕ) × (t : List ℕ) × All IsTrailer ls
    × (scratch ++ t ≡ first_trailer ls ++ crlf)
    × (bytes ≡ t ++ after_trailer ls extra)
    × (out ≡ [])
Owes done scratch bytes out = out ≡ []
Owes errored scratch bytes out = ⊥

pub record Promises (out : List ℕ) (d : ChunkedDecoder) : Type 0 where
  pub sound : IsSound d.inner
  pub owes : Owes d.state d.scratch (bytes_in d.inner) out
