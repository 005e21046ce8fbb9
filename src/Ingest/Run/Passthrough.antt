-- ===== src/Ingest/Run/Passthrough.antt =====
-- crates/rustyice-ingest/src/icecast.rs: without a transcoder, `run` publishes what it receives.
use rusty_ice.Prelude.{
  ℕ, ◌+◌, ◌≡◌, ◌≢◌, ◌==◌, refl, sym, ap, ◌∙◌, inl, inr, none, some, List, true, [], ◌∷◌, ◌++◌, map,
  append_assoc, append-nil, length, val, arith, Checked-cases, Bool-cases, Option-cases,
}
use rusty_ice.Core.Types.{CodecId, StreamPacket, AudioPayload, encoded}
use rusty_ice.Codec.OggHeaderCapture.{push, is_settled}
use rusty_ice.Ingest.Run.{
  TranscodePipeline, IcecastIngest, output_codec, Event, chunk, closed, slept, finished, Loop,
  packets_published, start, publish, detected, lock_rate, transcoded, capture_headers,
  transcode_output_bps, publish_chunk, pacing, pause_after, take_chunk, flush_tail, run,
}
use rusty_ice.Ingest.Run.Sound.{IsSound, IsZeroPaced, take_chunk-IsSound, start-IsSound}

-- The chunks of a source that is never disturbed, with the instants they are published at.
abbrev pub undisturbed : List (List ℕ × ℕ) → ℕ → List Event
undisturbed [] end = closed end ∷ []
undisturbed ((bytes, pts) ∷ cs) end = chunk bytes pts (λ _ _. slept) ∷ undisturbed cs end

-- A packet of the codec with these bytes.
abbrev pub payload_of : CodecId → List ℕ → AudioPayload
payload_of codec bytes = encoded (record { codec = codec; bytes = bytes })

abbrev pub total : List (List ℕ × ℕ) → ℕ
total [] = 0
total ((x, _) ∷ xs) = length x + total xs

payloads-append :
    (ps : List StreamPacket) (p : StreamPacket)
    → map (λ p. p.payload) (ps ++ (p ∷ [])) ≡ map (λ p. p.payload) ps ++ (p.payload ∷ [])
payloads-append [] p = refl
payloads-append (q ∷ ps) p = ap (λ xs. q.payload ∷ xs) (payloads-append ps p)

packet : (P : TranscodePipeline) → CodecId → List ℕ → ℕ → Loop P → StreamPacket
packet P codec bytes pts l = record {
  payload = payload_of codec bytes;
  pts = pts;
  sequence = packets_published P l;
}

module _ (P : TranscodePipeline) where
  -- What the rate detection and the header capture leave alone.
  abbrev Keeps : Loop P → Loop P → Type 0
  Keeps l l' =
      (l'.pipeline ≡ l.pipeline)
      × (l'.bytes_received ≡ l.bytes_received)
      × (l'.published ≡ l.published)

  lock_rate-Keeps :
      (codec : CodecId) (bytes : List ℕ) (l l' : Loop P)
      → lock_rate P codec bytes l ≡ val l'
      → Keeps l l'
  unfolding lock_rate
  lock_rate-Keeps codec bytes l l' h = elim (Bool-cases l.source_rate_locked) [
    | inl locked ↦ ground (arith, locked, h)
    | inr open_ ↦ elim (Checked-cases (detected codec bytes)) [
      | inl fails ↦ absurd (ground (arith, open_, fails, h))
      | inr (r, e) ↦ elim (Option-cases r) [
        | inl nothing ↦ ground (arith, open_, e, nothing, h)
        | inr (bps, is) ↦ ground (arith, open_, e, is, h)
      ]
    ]
  ]

  capture_headers-Keeps :
      (bytes : List ℕ) (l l' : Loop P) → capture_headers P bytes l ≡ val l' → Keeps l l'
  unfolding capture_headers
  capture_headers-Keeps bytes l l' h = elim (Option-cases l.capture) [
    | inl off ↦ ground (arith, off, h)
    | inr (c, on) ↦ elim (Checked-cases (push c bytes)) [
      | inl fails ↦ absurd (ground (arith, on, fails, h))
      | inr (d, e) ↦ elim (Bool-cases (is_settled d)) [
        | inl settled ↦ ground (arith, on, e, settled, h)
        | inr more ↦ ground (arith, on, e, more, h)
      ]
    ]
  ]

  never :
      (ingest : IcecastIngest) (l : Loop P)
      → (pacing P ingest l).1 ≢ some 0
      → pause_after P ingest (λ _ _. slept) l ≡ val slept
  unfolding pause_after
  never ingest l some_rate = elim (Option-cases (pacing P ingest l).1) [
    | inl off ↦ ground (arith, off)
    | inr (bps, on) ↦ elim (Bool-cases (bps == 0)) [
      | inl zero_rate ↦ absurd (some_rate (ground (arith, on, zero_rate)))
      | inr positive ↦ ground (arith, on, positive)
    ]
  ]

  capture_headers-rate :
      (bytes : List ℕ) (l l' : Loop P)
      → capture_headers P bytes l ≡ val l'
      → (l'.source_rate ≡ l.source_rate) × (l'.source_rate_locked ≡ l.source_rate_locked)
  unfolding capture_headers
  capture_headers-rate bytes l l' h = elim (Option-cases l.capture) [
    | inl off ↦ ground (arith, off, h)
    | inr (c, on) ↦ elim (Checked-cases (push c bytes)) [
      | inl fails ↦ absurd (ground (arith, on, fails, h))
      | inr (d, e) ↦ elim (Bool-cases (is_settled d)) [
        | inl settled ↦ ground (arith, on, e, settled, h)
        | inr more ↦ ground (arith, on, e, more, h)
      ]
    ]
  ]

  -- A rate that was locked stays.
  abbrev IsCapped : ℕ → Loop P → Type 0
  IsCapped bps l = (l.source_rate ≡ some bps) × (l.source_rate_locked ≡ true) × (l.pipeline ≡ none)

  take_chunk-IsCapped :
      (ingest : IcecastIngest) (codec : CodecId) (bytes : List ℕ) (pts bps : ℕ) (l l' : Loop P)
      → IsCapped bps l
      → take_chunk P ingest codec bytes pts l ≡ val l'
      → (l'.source_rate ≡ some bps) × (l'.source_rate_locked ≡ true)
  unfolding take_chunk lock_rate transcoded publish_chunk publish
  take_chunk-IsCapped ingest codec bytes pts bps l l' (rate, locked, off) h =
      let counted : Loop P = record l {
        bytes_received = l.bytes_received + length bytes;
        output_bytes = l.output_bytes + length bytes;
      } in
      elim (Checked-cases (capture_headers P bytes counted)) [
        | inl fails ↦ absurd (ground (arith, locked, off, fails, h))
        | inr (c, e) ↦
            let (x, y) = capture_headers-rate bytes counted c e in
            (ground (arith, locked, off, e, h, x, rate), ground (arith, locked, off, e, h, y))
      ]

  -- How one chunk changes a loop without a transcoder.
  abbrev Took : CodecId → List ℕ → Loop P → Loop P → Type 0
  Took codec bytes l l' =
      (l'.pipeline ≡ none)
      × (l'.bytes_received ≡ l.bytes_received + length bytes)
      × (map (λ p. p.payload) l'.published
          ≡ map (λ p. p.payload) l.published ++ (payload_of codec bytes ∷ []))

  publish_chunk-Took :
      (codec : CodecId) (bytes : List ℕ) (pts : ℕ) (l l' : Loop P)
      → l.pipeline ≡ none
      → publish_chunk P codec pts (some bytes) l ≡ val l'
      → (l'.pipeline ≡ none)
        × (l'.bytes_received ≡ l.bytes_received)
        × (map (λ p. p.payload) l'.published
            ≡ map (λ p. p.payload) l.published ++ (payload_of codec bytes ∷ []))
  unfolding publish_chunk publish packet
  publish_chunk-Took codec bytes pts l l' off h =
      let counted = record l { output_bytes = l.output_bytes + length bytes } in
      elim (Checked-cases (capture_headers P bytes counted)) [
        | inl fails ↦ absurd (ground (arith, fails, h))
        | inr (c, e) ↦
            let (a, b, d) = capture_headers-Keeps bytes counted c e in
            let more : l'.published ≡ c.published ++ (packet P codec bytes pts c ∷ []) =
              ground (arith, e, h) in
            (
              ground (arith, e, h, a, off),
              ground (arith, e, h, b),
              ground (arith, more, d, payloads-append c.published (packet P codec bytes pts c)),
            )
      ]

  take_chunk-Took :
      (ingest : IcecastIngest) (codec : CodecId) (bytes : List ℕ) (pts : ℕ) (l l' : Loop P)
      → l.pipeline ≡ none
      → take_chunk P ingest codec bytes pts l ≡ val l'
      → Took (output_codec ingest codec) bytes l l'
  unfolding take_chunk transcoded
  take_chunk-Took ingest codec bytes pts l l' off h =
      elim (Checked-cases (lock_rate P codec bytes l)) [
        | inl fails ↦ absurd (ground (arith, fails, h))
        | inr (locked, e) ↦
            let (a, b, d) = lock_rate-Keeps codec bytes l locked e in
            let received = record locked {
              bytes_received = locked.bytes_received + length bytes;
            } in
            let still : received.pipeline ≡ none = a ∙ off in
            let (x, y, z) =
              publish_chunk-Took (output_codec ingest codec) bytes pts received l' still
                (ground (arith, e, h, still)) in
            (x, ground (arith, y, b), ground (arith, z, d))
      ]

  capped-IsZeroPaced :
      (ingest : IcecastIngest) (codec : CodecId) (bps : ℕ) (l : Loop P) (es : List Event)
      → bps ≢ 0
      → ingest.transcode ≡ none
      → IsCapped bps l
      → ¬ IsZeroPaced P ingest codec l es
  unfolding pacing transcode_output_bps
  capped-IsZeroPaced ingest codec bps l [] positive plain c z = z
  capped-IsZeroPaced ingest codec bps l (Event.cancelled ∷ es) positive plain c z = z
  capped-IsZeroPaced ingest codec bps l (Event.aborted ∷ es) positive plain c z = z
  capped-IsZeroPaced ingest codec bps l (closed pts ∷ es) positive plain c z = z
  capped-IsZeroPaced ingest codec bps l (chunk bytes pts pause ∷ es) positive plain c z =
      let (m, e, next) = z in
      let (rate, locked) = take_chunk-IsCapped ingest codec bytes pts bps l m c e in
      let (off, _, _) = take_chunk-Took ingest codec bytes pts l m c.2 e in
      elim next [
        | inl zero_rate ↦ positive (ground (arith, rate, plain, zero_rate))
        | inr (_, later) ↦
            capped-IsZeroPaced ingest codec bps m es positive plain (rate, locked, off) later
      ]

  -- A source without a transcoder whose rate is capped at more than 0 is never paced at a rate of 0.
  pub start-IsZeroPaced :
      (ingest : IcecastIngest) (codec : CodecId) (bps : ℕ) (es : List Event)
      → bps ≢ 0
      → ingest.transcode ≡ none
      → ingest.max_rate_bps ≡ some bps
      → ¬ IsZeroPaced P ingest codec (start P ingest codec none) es
  unfolding start
  start-IsZeroPaced ingest codec bps es positive plain cap =
      capped-IsZeroPaced ingest codec bps (start P ingest codec none) es positive plain
        (cap, rw cap refl, refl)

  go_on :
      (ingest : IcecastIngest) (codec : CodecId) (l : Loop P) (cs : List (List ℕ × ℕ)) (end : ℕ)
      → IsSound P l
      → l.pipeline ≡ none
      → ¬ IsZeroPaced P ingest codec l (undisturbed cs end)
      → (l' : Loop P) × (run P ingest codec l (undisturbed cs end) ≡ val (finished, l'))
        × (l'.bytes_received ≡ l.bytes_received + total cs)
        × (map (λ p. p.payload) l'.published
            ≡ map (λ p. p.payload) l.published
              ++ map (λ c. payload_of (output_codec ingest codec) c.0) cs)
  unfolding run flush_tail
  go_on ingest codec l [] end sound off _ =
      (l, ground (arith, off), omega arith, sym (append-nil (map (λ p. p.payload) l.published)))
  go_on ingest codec l ((bytes, pts) ∷ cs) end sound off paced =
      let (m, e, sound') = take_chunk-IsSound P ingest codec bytes pts l sound in
      let (off', b, c) = take_chunk-Took ingest codec bytes pts l m off e in
      let still = never ingest m (λ zero_rate. paced (m, e, inl zero_rate)) in
      let (l', f, x, y) =
        go_on ingest codec m cs end sound' off' (λ later. paced (m, e, inr (still, later))) in
      let shift =
        append_assoc (map (λ p. p.payload) l.published)
          (payload_of (output_codec ingest codec) bytes ∷ [])
          (map (λ c. payload_of (output_codec ingest codec) c.0) cs) in
      (l', ground (arith, e, f, still), omega (arith, b, x), ground (arith, y, c, shift))

  -- Without a transcoder, a source that is not disturbed and never paced at a rate of 0 has every chunk published as it is, in order and
  -- one packet for each, with the source's codec unless one is forced; when it is gone, `run` ends
  -- without an error and has counted all its bytes.
  pub run-passthrough :
      (ingest : IcecastIngest) (codec : CodecId) (cs : List (List ℕ × ℕ)) (end : ℕ)
      → ¬ IsZeroPaced P ingest codec (start P ingest codec none) (undisturbed cs end)
      → (l' : Loop P) × (run P ingest codec (start P ingest codec none) (undisturbed cs end)
          ≡ val (finished, l'))
        × (l'.bytes_received ≡ total cs)
        × (map (λ p. p.payload) l'.published
            ≡ map (λ c. payload_of (output_codec ingest codec) c.0) cs)
  unfolding start
  run-passthrough ingest codec cs end paced =
      let (l', f, x, y) =
        go_on ingest codec (start P ingest codec none) cs end (start-IsSound P ingest codec none)
          refl paced in
      (l', f, omega (arith, x), y)
