-- ===== src/Ingest/Run/Sound.antt =====
-- crates/rustyice-ingest/src/icecast.rs: when `run` panics, and what holds of its packets and headers.
use rusty_ice.Prelude.{
  ℕ, suc, panic, ◌==◌, ◌+◌, ◌≡◌, refl, sym, subst, ◌⊎◌, inl, inr, true, ◌&&◌, Option, none, some,
  List, [], ◌∷◌, ◌++◌, length, Checked, val, arith, Checked-cases, Bool-cases, Option-cases,
}
use rusty_ice.Core.Types.{CodecId, codec_eq, StreamPacket}
use rusty_ice.Codec.Mp3.FirstFrame.{first_bitrate, scan_bitrate_bps-first}
use rusty_ice.Codec.Vorbis.{scan_nominal_bitrate_bps}
use rusty_ice.Codec.Vorbis.Identification.{scan_nominal_bitrate_bps-ne-panic}
use rusty_ice.Codec.OggHeaderCapture.{OggHeaderCapture, new, is_settled, header_bytes, push}
use rusty_ice.Codec.OggHeaderCapture.Splitting.{feed}
use rusty_ice.Codec.OggHeaderCapture.Total.{IsValid, new-IsValid, push-IsValid}
use rusty_ice.Codec.OggHeaderCapture.Alignment.{Pages, header_bytes-Pages}
use rusty_ice.Ingest.Run.{
  TranscodePipeline, IcecastIngest, output_codec, Event, cancelled, aborted, chunk, closed, Pause,
  slept, pause_cancelled, pause_aborted, Progress, non_empty, Loop, start, publish, detected,
  lock_rate, transcoded, capture_headers, publish_chunk, pacing, pause_after, take_chunk,
  flush_tail, run,
}

-- The packets are numbered one after the other.
abbrev pub Numbered : ℕ → List StreamPacket → Type 0
Numbered n [] = Unit
Numbered n (p ∷ ps) = (p.sequence ≡ n) × Numbered (suc n) ps

Numbered-append :
    (n : ℕ) (ps : List StreamPacket) (p : StreamPacket)
    → Numbered n ps
    → p.sequence ≡ n + length ps
    → Numbered n (ps ++ (p ∷ []))
Numbered-append n [] p h e = (omega (arith, e), tt)
Numbered-append n (q ∷ ps) p (a, h) e = (a, Numbered-append (suc n) ps p h (omega (arith, e)))

-- A capture that goes on has been fed parts of the stream.
abbrev pub IsFed : Option OggHeaderCapture → Type 0
IsFed none = Unit
IsFed (some c) = (chunks : List (List ℕ)) × (feed new chunks ≡ val c) × IsValid c

-- Captured headers are whole Ogg pages, three of which start a packet.
abbrev pub AreHeaders : Option (List ℕ) → Type 0
AreHeaders none = Unit
AreHeaders (some bytes) = Pages 3 bytes

pub Pause-cases : (p : Pause) → (p ≡ slept) ⊎ ((p ≡ pause_cancelled) ⊎ (p ≡ pause_aborted))
Pause-cases slept = inl refl
Pause-cases pause_cancelled = inr (inl refl)
Pause-cases pause_aborted = inr (inr refl)

detected-val : (codec : CodecId) (bytes : List ℕ) → (r : Option ℕ) × (detected codec bytes ≡ val r)
unfolding detected
detected-val codec bytes = elim (Bool-cases (codec_eq codec CodecId.mp3)) [
  | inl mp3 ↦ (first_bitrate bytes, ground (arith, mp3, scan_bitrate_bps-first bytes))
  | inr other ↦ elim (Bool-cases (codec_eq codec CodecId.vorbis)) [
    | inr none_ ↦ (none, ground (arith, other, none_))
    | inl vorbis ↦ elim (Checked-cases (scan_nominal_bitrate_bps bytes)) [
      | inl fails ↦ absurd (scan_nominal_bitrate_bps-ne-panic bytes fails)
      | inr (r, e) ↦ (r, ground (arith, other, vorbis, e))
    ]
  ]
]

feed-append :
    (c d e : OggHeaderCapture) (chunks : List (List ℕ)) (bytes : List ℕ)
    → feed c chunks ≡ val d
    → push d bytes ≡ val e
    → feed c (chunks ++ (bytes ∷ [])) ≡ val e
feed-append c d e [] bytes h k = let same : c ≡ d = cc in ground (arith, same, k)
feed-append c d e (x ∷ xs) bytes h k = elim (Checked-cases (push c x)) [
  | inl fails ↦ absurd (ground (arith, fails, h))
  | inr (c', f) ↦ ground (arith, f, feed-append c' d e xs bytes (ground (arith, f, h)) k)
]

module _ (P : TranscodePipeline) where
  abbrev pub IsSound : Loop P → Type 0
  IsSound l = Numbered 0 l.published × IsFed l.capture × AreHeaders l.sink

  -- A step that returns, to a loop that is sound.
  abbrev Returns : Checked (Loop P) → Type 0
  Returns r = (l : Loop P) × (r ≡ val l) × IsSound l

  publish-IsSound :
      (codec : CodecId) (pts : ℕ) (bytes : List ℕ) (l : Loop P)
      → IsSound l
      → IsSound (publish P codec pts bytes l)
  unfolding publish
  publish-IsSound codec pts bytes l (a, b, c) =
      (Numbered-append 0 l.published _ a (omega arith), b, c)

  lock_rate-IsSound :
      (codec : CodecId) (bytes : List ℕ) (l : Loop P)
      → IsSound l
      → Returns (lock_rate P codec bytes l)
  unfolding lock_rate
  lock_rate-IsSound codec bytes l h = elim (Bool-cases l.source_rate_locked) [
    | inl locked ↦ (l, ground (arith, locked), h)
    | inr open_ ↦
        let (found, e) = detected-val codec bytes in
        elim (Option-cases found) [
          | inl nothing ↦ (l, ground (arith, open_, e, nothing), h)
          | inr (bps, is) ↦ (
            record l { source_rate = some bps; source_rate_locked = true },
            ground (arith, open_, e, is),
            h,
          )
        ]
  ]

  capture_headers-IsSound :
      (bytes : List ℕ) (l : Loop P) → IsSound l → Returns (capture_headers P bytes l)
  unfolding capture_headers
  capture_headers-IsSound bytes l (n, f, s) = elim (Option-cases l.capture) [
    | inl off ↦ (l, ground (arith, off), (n, f, s))
    | inr (c, on) ↦
        let (chunks, fed, valid) = subst IsFed on f in
        let (d, e, valid') = push-IsValid c bytes valid in
        let fed' = feed-append new c d chunks bytes fed e in
        elim (Bool-cases (is_settled d)) [
          | inr more ↦ (
            record l { capture = some d },
            ground (arith, on, e, more),
            (n, (chunks ++ (bytes ∷ []), fed', valid'), s),
          )
          | inl settled ↦ elim (Option-cases (header_bytes d)) [
            | inl nothing ↦
                (record l { capture = none }, ground (arith, on, e, settled, nothing), (n, tt, s))
            | inr (headers, is) ↦ (
              record l { capture = none; sink = some headers },
              ground (arith, on, e, settled, is),
              (n, tt, header_bytes-Pages (chunks ++ (bytes ∷ [])) d headers fed' is),
            )
          ]
        ]
  ]

  publish_chunk-IsSound :
      (codec : CodecId) (pts : ℕ) (out : Option (List ℕ)) (l : Loop P)
      → IsSound l
      → Returns (publish_chunk P codec pts out l)
  unfolding publish_chunk
  publish_chunk-IsSound codec pts none l h = (l, refl, h)
  publish_chunk-IsSound codec pts (some bytes) l h =
      let counted = record l { output_bytes = l.output_bytes + length bytes } in
      let (l', e, h') = capture_headers-IsSound bytes counted h in
      (publish P codec pts bytes l', ground (arith, e), publish-IsSound codec pts bytes l' h')

  pub transcoded_loop :
      (bytes : List ℕ) (l : Loop P)
      → (q : Option P.State) × ((transcoded P bytes l).1 ≡ record l { pipeline = q })
  unfolding transcoded
  transcoded_loop bytes l = elim (Option-cases l.pipeline) [
    | inl off ↦ (none, ground (arith, off))
    | inr (p, on) ↦
        let q : Option P.State = some (P.push_chunk p bytes).1 in
        elim (Option-cases (P.push_chunk p bytes).0) [
          | inl failed ↦ (q, ground (arith, on, failed))
          | inr (out, ok) ↦ (q, ground (arith, on, ok))
        ]
  ]

  flush_tail-cases :
      (codec : CodecId) (pts : ℕ) (l : Loop P)
      → (flush_tail P codec pts l ≡ l)
        ⊎ ((bytes : List ℕ) × (flush_tail P codec pts l ≡ publish P codec pts bytes l))
  unfolding flush_tail
  flush_tail-cases codec pts l = elim (Option-cases l.pipeline) [
    | inl off ↦ inl (ground (arith, off))
    | inr (p, on) ↦ elim (Option-cases (P.flush p)) [
      | inl failed ↦ inl (ground (arith, on, failed))
      | inr (tail, ok) ↦ elim (Option-cases (non_empty tail)) [
        | inl empty ↦ inl (ground (arith, on, ok, empty))
        | inr (bytes, full) ↦ inr (bytes, ground (arith, on, ok, full))
      ]
    ]
  ]

  flush_tail-IsSound :
      (codec : CodecId) (pts : ℕ) (l : Loop P) → IsSound l → IsSound (flush_tail P codec pts l)
  flush_tail-IsSound codec pts l h = elim (flush_tail-cases codec pts l) [
    | inl same ↦ subst IsSound (sym same) h
    | inr (bytes, more) ↦ subst IsSound (sym more) (publish-IsSound codec pts bytes l h)
  ]

  pub take_chunk-IsSound :
      (ingest : IcecastIngest) (codec : CodecId) (bytes : List ℕ) (pts : ℕ) (l : Loop P)
      → IsSound l
      → Returns (take_chunk P ingest codec bytes pts l)
  unfolding take_chunk
  take_chunk-IsSound ingest codec bytes pts l h =
      let (locked, e, h') = lock_rate-IsSound codec bytes l h in
      let received = record locked { bytes_received = locked.bytes_received + length bytes } in
      let (q, same) = transcoded_loop bytes received in
      let sound : IsSound (transcoded P bytes received).1 = subst IsSound (sym same) h' in
      let (done, f, h'') =
        publish_chunk-IsSound (output_codec ingest codec) pts (transcoded P bytes received).0
          (transcoded P bytes received).1 sound in
      (done, ground (arith, e, f), h'')

  -- What holds when the loop starts.
  pub start-IsSound :
      (ingest : IcecastIngest) (codec : CodecId) (pipeline : Option P.State)
      → IsSound (start P ingest codec pipeline)
  unfolding start
  start-IsSound ingest codec pipeline =
      elim (Bool-cases
        (codec_eq (output_codec ingest codec) CodecId.vorbis && ingest.header_capture)) [
          | inl on ↦ rw on (tt, ([], refl, new-IsValid), tt)
          | inr off ↦ rw off (tt, tt, tt)
        ]

  -- Among the events there is a chunk that the loop comes to and after which it is paced at a rate of 0.
  abbrev pub IsZeroPaced : IcecastIngest → CodecId → Loop P → List Event → Type 0
  IsZeroPaced ingest codec l [] = ⊥
  IsZeroPaced ingest codec l (cancelled ∷ es) = ⊥
  IsZeroPaced ingest codec l (aborted ∷ es) = ⊥
  IsZeroPaced ingest codec l (closed pts ∷ es) = ⊥
  IsZeroPaced ingest codec l (chunk bytes pts pause ∷ es) =
      (l' : Loop P) × (take_chunk P ingest codec bytes pts l ≡ val l')
      × (((pacing P ingest l').1 ≡ some 0)
          ⊎ ((pause_after P ingest pause l' ≡ val slept) × IsZeroPaced ingest codec l' es))

  Paced-cases :
      (ingest : IcecastIngest) (pause : ℕ → ℕ → Pause) (l : Loop P)
      → ((pause_after P ingest pause l ≡ panic) × ((pacing P ingest l).1 ≡ some 0))
        ⊎ ((s : Pause) × (pause_after P ingest pause l ≡ val s))
  unfolding pause_after
  Paced-cases ingest pause l = elim (Option-cases (pacing P ingest l).1) [
    | inl off ↦ inr (slept, ground (arith, off))
    | inr (bps, on) ↦ elim (Bool-cases (bps == 0)) [
      | inl zero_rate ↦ inl (ground (arith, on, zero_rate), ground (arith, on, zero_rate))
      | inr some_rate ↦ inr (pause (pacing P ingest l).0 bps, ground (arith, on, some_rate))
    ]
  ]

  -- Whatever the source sends, however the transcoder answers, and however the task is cancelled, `run`
  -- panics only after a chunk that it is to pace at a rate of 0; else no index is out of bounds and no
  -- loop of the header capture goes on for ever, the packets it published are numbered from 0 one after
  -- the other, and headers that it stored for listeners are whole Ogg pages, three of which start a
  -- packet.
  pub run-IsSound :
      (ingest : IcecastIngest) (codec : CodecId) (l : Loop P) (events : List Event)
      → IsSound l
      → ((p : Progress) × (l' : Loop P) × (run P ingest codec l events ≡ val (p, l')) × IsSound l')
        ⊎ ((run P ingest codec l events ≡ panic) × IsZeroPaced ingest codec l events)
  unfolding run
  run-IsSound ingest codec l [] h = inl (Progress.running, l, refl, h)
  run-IsSound ingest codec l (cancelled ∷ es) h = inl (Progress.was_cancelled, l, refl, h)
  run-IsSound ingest codec l (aborted ∷ es) h = inl (Progress.io_failed, l, refl, h)
  run-IsSound ingest codec l (closed pts ∷ es) h = inl (
    Progress.finished,
    flush_tail P (output_codec ingest codec) pts l,
    refl,
    flush_tail-IsSound (output_codec ingest codec) pts l h,
  )
  run-IsSound ingest codec l (chunk bytes pts pause ∷ es) h =
      let (l', e, h') = take_chunk-IsSound ingest codec bytes pts l h in
      elim (Paced-cases ingest pause l') [
        | inl (stops, zero_rate) ↦ inr (ground (arith, e, stops), (l', e, inl zero_rate))
        | inr (s, paced) ↦ elim (Pause-cases s) [
          | inr (inl c) ↦ inl (Progress.was_cancelled, l', ground (arith, e, paced, c), h')
          | inr (inr a) ↦ inl (Progress.io_failed, l', ground (arith, e, paced, a), h')
          | inl w ↦ elim (run-IsSound ingest codec l' es h') [
            | inl (p, done, f, h'') ↦ inl (p, done, ground (arith, e, f, paced, w), h'')
            | inr (f, later) ↦
                inr (ground (arith, e, f, paced, w), (l', e, inr (ground (arith, paced, w), later)))
          ]
        ]
      ]
