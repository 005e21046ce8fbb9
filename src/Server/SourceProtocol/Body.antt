-- ===== src/Server/SourceProtocol/Body.antt =====
-- crates/rustyice-server/src/source_protocol.rs: the readers between the socket and the ingest, and what a
-- source is answered. The socket has some bytes to give, and each poll finds some of them there.
-- The limit of a body with a length is tokio's `take`; chunked bodies are in Server/Chunked.
use rusty_ice.Prelude.{
  drop_past, ℕ, ◌+◌, ◌-◌, ◌≤◌, ◌<◌, ◌≡◌, refl, ap, ◌∙◌, inl, inr, Bool, true, false, not, ◌&&◌,
  Option, none, some, List, [], ◌∷◌, ◌++◌, length, take, drop, ltb, min, if◌then◌else◌, arith,
  append_assoc, take-append-drop, length-append, drop-drop, Bool-cases, bytes_eq, ascii, map, All,
  length-drop,
}
use rusty_ice.Core.Mount.{Text}
use rusty_ice.Server.Chunked.Size.{trim}
use rusty_ice.Server.SourceHeaders.{Headers, from_str}
use rusty_ice.Server.SourceProtocol.Credentials.{header, occurs_in}

pub record ChainReader : Type 0 where
  pub buffer : List ℕ
  pub pos : ℕ
  pub inner : List ℕ

abbrev pub chain : List ℕ → List ℕ → ChainReader
chain buffer inner = record { buffer = buffer; pos = 0; inner = inner }

-- A poll with room for so many bytes, when the socket has so many there.
pub record Poll : Type 0 where
  pub room : ℕ
  pub there : ℕ

unfoldable pub poll_chain : Poll → ChainReader → List ℕ × ChainReader
poll_chain p r =
    let remaining = drop r.pos r.buffer in
    let n = min (length remaining) p.room in
    let m = min p.room p.there in
    if ltb r.pos (length r.buffer)
    then (take n remaining, record r { pos = r.pos + n })
    else (take m r.inner, record r { inner = drop m r.inner })

-- `bytes_received` is that of the mount's statistics.
pub record CountingReader : Type 0 where
  pub reader : ChainReader
  pub bytes_received : ℕ

unfoldable pub poll_read : Poll → CountingReader → List ℕ × CountingReader
poll_read p c =
    let (filled, reader) = poll_chain p c.reader in
    (filled, record { reader = reader; bytes_received = c.bytes_received + length filled })

-- What the ingest gets in a number of polls.
abbrev pub read_all : List Poll → CountingReader → List ℕ × CountingReader
read_all [] c = ([], c)
read_all (p ∷ ps) c =
    let (filled, c') = poll_read p c in let (rest, c'') = read_all ps c' in (filled ++ rest, c'')

-- What is still to come.
unfoldable pub pending : ChainReader → List ℕ
pending r = drop r.pos r.buffer ++ r.inner

abbrev ascii_lower : ℕ → ℕ
ascii_lower b = if ltb 64 b && ltb b 91 then b + 32 else b

unfoldable pub to_lower : Text → Text
to_lower text = map ascii_lower text

unfoldable pub content_length : Headers → Option ℕ
content_length headers = elim (header headers (ascii "content-length")) [
  | none ↦ none
  | some v ↦ from_str 64 v
]

unfoldable pub expects_continue : Headers → Bool
expects_continue headers = elim (header headers (ascii "expect")) [
  | none ↦ false
  | some v ↦ bytes_eq (to_lower (trim v)) (ascii "100-continue")
]

unfoldable pub is_chunked : Headers → Bool
is_chunked headers = elim (header headers (ascii "transfer-encoding")) [
  | none ↦ false
  | some v ↦ occurs_in (ascii "chunked") (to_lower v)
]

unfoldable pub is_classic_icecast : Headers → Bool
is_classic_icecast headers =
    not (expects_continue headers)
    && ((elim (content_length headers) [ none ↦ true | some _ ↦ false ])
        && not (is_chunked headers))

-- The status sent before the body, if any.
unfoldable pub upfront_response : Headers → List ℕ
upfront_response headers =
    if expects_continue headers
    then 100 ∷ []
    else if is_classic_icecast headers
    then 200 ∷ []
    else []

-- The statuses a source is sent that was let onto a mount, when its ingest has ended and all writes
-- reach it; the argument tells that the transcoder could not be started.
unfoldable pub statuses : Headers → Bool → List ℕ
statuses headers init_failed =
    upfront_response headers
    ++ (if init_failed then 503 ∷ [] else if is_classic_icecast headers then [] else 200 ∷ [])

poll_chain-pending :
    (p : Poll) (r : ChainReader) → (poll_chain p r).0 ++ pending (poll_chain p r).1 ≡ pending r
unfolding poll_chain pending
poll_chain-pending p r =
    let remaining = drop r.pos r.buffer in
    let n = min (length remaining) p.room in
    let m = min p.room p.there in
    elim (Bool-cases (ltb r.pos (length r.buffer))) [
      | inl more ↦ ground (
        arith,
        more,
        append_assoc (take n remaining) (drop n remaining) r.inner,
        take-append-drop n remaining,
        drop-drop r.pos n r.buffer,
      )
      | inr read ↦
          let none_left = drop_past r.pos r.buffer (ground (arith, read)) in
          ground (arith, read, none_left, take-append-drop m r.inner)
    ]

-- A poll that has room when bytes are there.
abbrev pub IsLive : Poll → Type 0
IsLive p = (0 < p.room) × (0 < p.there)

poll_chain-progress :
    (p : Poll) (r : ChainReader)
    → IsLive p
    → length (pending (poll_chain p r).1) ≤ length (pending r) - 1
unfolding poll_chain pending
poll_chain-progress p r (room, there) =
    let remaining = drop r.pos r.buffer in
    let n = min (length remaining) p.room in
    let m = min p.room p.there in
    let left = length-drop r.pos r.buffer in
    elim (Bool-cases (ltb r.pos (length r.buffer))) [
      | inl more ↦
          let after = length-append (drop (r.pos + n) r.buffer) r.inner in
          let before = length-append remaining r.inner in
          let rest = length-drop (r.pos + n) r.buffer in
          ground (arith, more, room, there, left, after, before, rest)
      | inr read ↦
          let none_left = drop_past r.pos r.buffer (ground (arith, read)) in
          let rest = length-drop m r.inner in ground (arith, read, room, there, none_left, rest)
    ]

-- Whatever room the ingest gives and however the socket delivers, the bytes that the ingest gets,
-- followed by those still to come, are the bytes left over from the head followed by the socket's; the
-- count of bytes received grows by exactly those it got; and when each poll has room and finds bytes
-- there, no bytes are left after as many polls as there were bytes.
pub read_all-pending :
    (ps : List Poll) (c : CountingReader)
    → ((read_all ps c).0 ++ pending (read_all ps c).1.reader ≡ pending c.reader)
      × ((read_all ps c).1.bytes_received ≡ c.bytes_received + length (read_all ps c).0)
      × (All IsLive ps
          → length (pending (read_all ps c).1.reader) ≤ length (pending c.reader) - length ps)
unfolding poll_read
read_all-pending [] c = (refl, omega arith, λ h. omega arith)
read_all-pending (p ∷ ps) c =
    let c' = (poll_read p c).1 in
    let (rest, count, drained) = read_all-pending ps c' in
    let here = poll_chain-pending p c.reader in
    let filled = (poll_chain p c.reader).0 in
    let later = (read_all ps c').0 in
    (
      append_assoc filled later (pending (read_all ps c').1.reader)
          ∙ (ap (λ x. filled ++ x) rest ∙ here),
      omega (arith, count, length-append filled later),
      λ (live, lives). omega (arith, drained lives, poll_chain-progress p c.reader live),
    )
