-- ===== src/Output/HttpPassthrough.antt =====
-- crates/rustyice-output/src/http_passthrough.rs: what is written to a listener. The writer is the
-- list of the bytes that it took; a write that fails ends the listener, so what is modelled is a
-- listener whose writes succeed. Title and overlay are read anew for each metadata frame.
pub mod Framing
pub mod Frame
use rusty_ice.Prelude.{
  ℕ, zero, suc, ◌+◌, ◌-◌, ◌*◌, ◌/◌, ◌≤◌, min, Bool, true, false, ◌&&◌, Option, none, some, List, [],
  ◌∷◌, ◌++◌, length, take, drop, replicate, ltb, leb, if◌then◌else◌, ascii,
}
use rusty_ice.Core.Types.{
  StreamPacket, AudioPayload, encoded, decoded, DisconnectReason, source_ended, shutting_down,
}
use rusty_ice.Core.Mount.{Text, MountInfo, SourceOverlay}

abbrev or_else {ℓ} : {A : Type ℓ} → Option A → Option A → Option A
or_else none b = b
or_else (some a) b = some a

abbrev and_then {ℓ κ} : {A : Type ℓ} {B : Type κ} → Option A → (A → Option B) → Option B
and_then none f = none
and_then (some a) f = f a

abbrev unwrap_or {ℓ} : {A : Type ℓ} → Option A → A → A
unwrap_or none d = d
unwrap_or (some a) d = a

-- What a frame shows at one moment.
unfoldable pub title_of : MountInfo → Option Text → Option SourceOverlay → Text
title_of info title overlay =
    unwrap_or (or_else (or_else title (and_then overlay (λ o. o.name))) info.metadata.name) []

unfoldable pub url_of : MountInfo → Option SourceOverlay → Text
url_of info overlay = unwrap_or (or_else (and_then overlay (λ o. o.url)) info.metadata.url) []

-- usize::div_ceil(16)
abbrev pub blocks_of : ℕ → ℕ
blocks_of n = (n + 15) / 16

-- Vec::resize(n, 0)
abbrev pub resize : ℕ → List ℕ → List ℕ
resize n xs = take n xs ++ replicate (n - length xs) 0

abbrev pub meta_str : Text → Text → List ℕ
meta_str title url =
    ascii "StreamTitle='" ++ (title ++ (ascii "';StreamUrl='" ++ (url ++ ascii "';")))

abbrev is_empty : Text → Bool
is_empty [] = true
is_empty (_ ∷ _) = false

-- The frame for a title and an address; `u8::try_from(blocks).unwrap_or(u8::MAX)` is its first byte.
unfoldable pub frame_for : Text → Text → List ℕ
frame_for title url =
    let raw = meta_str title url in
    let blocks = blocks_of (length raw) in
    let padded = blocks * 16 in
    if is_empty title && is_empty url
    then 0 ∷ []
    else resize (suc padded) ((if leb blocks 255 then blocks else 255) ∷ raw)

unfoldable pub build_icy_frame : MountInfo → Option Text → Option SourceOverlay → List ℕ
build_icy_frame info title overlay = frame_for (title_of info title overlay) (url_of info overlay)

-- The bytes on the wire, the two counters of `run`, and the number of metadata frames written so
-- far.
pub record Listener : Type 0 where
  pub wire : List ℕ
  pub bytes_since_meta : ℕ
  pub bytes_sent : ℕ
  pub frames : ℕ

pub data Event : Type 0 where
  next : StreamPacket → Event
  cancelled : Event

abbrev pub joined : Listener
joined = record { wire = []; bytes_since_meta = 0; bytes_sent = 0; frames = 0 }

-- `frame k` is the frame that `build_icy_frame` makes when the k-th is due.
module _ (metaint : ℕ) (frame : ℕ → List ℕ) where
  -- The body of the loop of `write_with_icy`, up to `offset = chunk_end`.
  unfoldable pub write_chunk : Listener → List ℕ → Listener
  write_chunk l chunk = record l {
    wire = l.wire ++ chunk;
    bytes_since_meta = l.bytes_since_meta + length chunk;
    bytes_sent = l.bytes_sent + length chunk;
  }

  unfoldable pub write_frame : Listener → Listener
  write_frame l =
      if leb metaint l.bytes_since_meta
      then record l { wire = l.wire ++ frame l.frames; bytes_since_meta = 0; frames = suc l.frames }
      else l

  -- The loop over what is left of the packet, with fuel for its rounds.
  unfoldable pub write_loop : ℕ → Listener → List ℕ → Option Listener
  write_loop zero l xs = none
  write_loop (suc fuel) l [] = some l
  write_loop (suc fuel) l (x ∷ xs) =
      let n = min (metaint - l.bytes_since_meta) (length (x ∷ xs)) in
      write_loop fuel (write_frame (write_chunk l (take n (x ∷ xs)))) (drop n (x ∷ xs))

  unfoldable pub write_with_icy : Listener → List ℕ → Option Listener
  write_with_icy l xs = write_loop (suc (length xs)) l xs

  -- What `run` does with one packet: audio that is not encoded is passed over.
  unfoldable pub write_payload : Bool → Listener → AudioPayload → Option Listener
  write_payload icy_requested l (decoded _) = some l
  write_payload icy_requested l (encoded e) =
      if icy_requested
      then write_with_icy l e.bytes
      else some (record l { wire = l.wire ++ e.bytes; bytes_sent = l.bytes_sent + length e.bytes })

  -- What the two branches of the `select!` see, in order; the list ends with the subscription.
  unfoldable pub run : Bool → Listener → List Event → Option (Listener × DisconnectReason)
  run icy_requested l [] = some (l, source_ended)
  run icy_requested l (cancelled ∷ rest) = some (l, shutting_down)
  run icy_requested l (next p ∷ rest) = elim (write_payload icy_requested l p.payload) [
    | none ↦ none
    | some l' ↦ run icy_requested l' rest
  ]
