-- ===== src/Server/StreamRouter/Serve.antt =====
-- crates/rustyice-server/src/stream_router.rs: who is admitted, and what reaches a listener that gets no
-- metadata frames.
use rusty_ice.Prelude.{
  ℕ, ◌+◌, ◌<◌, ◌≡◌, ◌≢◌, ◌∙◌, refl, sym, ap, inl, inr, false, Option, none, some, List, [], ◌∷◌,
  ◌++◌, length, leb, arith, append_assoc, append-nil, length-append, Bool-cases, Option-cases,
}
use rusty_ice.Core.Types.{CodecId, codec_eq, AudioPayload, encoded, decoded, DisconnectReason}
use rusty_ice.Core.Config.{Config}
use rusty_ice.Core.Mount.{Text, ActiveMount}
use rusty_ice.Output.HttpPassthrough.{Listener, Event, next, cancelled, write_payload, run}
use rusty_ice.Output.HttpPassthrough.Framing.{audio_in, broadcast}
use rusty_ice.Server.StreamRouter.{
  mount_transcode, resolve_output_codec, Accepted, accepted, accept, admit, primed, serve,
}

module _ (metaint : ℕ) (frame : ℕ → List ℕ) where
  payload_plain :
      (a : AudioPayload) (l : Listener)
      → (l' : Listener) × (write_payload metaint frame false l a ≡ some l')
        × (l'.wire ≡ l.wire ++ audio_in a)
        × (l'.bytes_sent ≡ l.bytes_sent + length (audio_in a))
  unfolding write_payload audio_in
  payload_plain (encoded e) l =
      let l' : Listener = record l {
        wire = l.wire ++ e.bytes;
        bytes_sent = l.bytes_sent + length e.bytes;
      } in
      (l', refl, refl, refl)
  payload_plain (decoded _) l = (l, refl, sym (append-nil l.wire), omega arith)

  run_plain :
      (events : List Event) (l : Listener)
      → (l' : Listener) × (reason : DisconnectReason) × (run metaint frame false l events
          ≡ some (l', reason))
        × (l'.wire ≡ l.wire ++ broadcast events)
        × (l'.bytes_sent ≡ l.bytes_sent + length (broadcast events))
  unfolding run broadcast
  run_plain [] l = (l, _, refl, sym (append-nil l.wire), omega arith)
  run_plain (cancelled ∷ rest) l = (l, _, refl, sym (append-nil l.wire), omega arith)
  run_plain (next p ∷ rest) l =
      let (l1, e1, w1, n1) = payload_plain p.payload l in
      let (l2, r, e2, w2, n2) = run_plain rest l1 in
      (
        l2,
        r,
        rw (run, e1) e2,
        w2
            ∙ ap (λ z. z ++ broadcast rest) w1
            ∙ append_assoc l.wire (audio_in p.payload) (broadcast rest),
        omega (arith, n1, n2, length-append (audio_in p.payload) (broadcast rest)),
      )

abbrev prefix_of : ActiveMount → List ℕ
prefix_of mount = elim mount.header_bytes [ none ↦ [] | some headers ↦ headers ]

primed_lem :
    (a : Accepted)
    → ((primed a).wire ≡ elim a.prefix [ none ↦ [] | some headers ↦ headers ])
      × ((primed a).bytes_sent ≡ 0)
unfolding primed
primed_lem a = elim (Option-cases a.prefix) [
  | inl missing ↦ rw missing (refl, refl)
  | inr (headers, there) ↦ rw there (refl, refl)
]

codec_eq_ne : (c : CodecId) → c ≢ CodecId.mp3 → codec_eq c CodecId.mp3 ≡ false
unfolding codec_eq
codec_eq_ne CodecId.mp3 h = absurd (h refl)
codec_eq_ne c h = refl

-- A listener of a mount whose output is not MP3, whatever its request asked for, is served the headers
-- captured so far and then exactly the encoded audio of its packets, with no metadata in between; the
-- headers are not counted in `bytes_sent`.
pub serve-accept :
    (cfg : Config) (path : Text) (mount : ActiveMount) (icy_metadata : Option Text)
    (frame : ℕ → List ℕ) (events : List Event)
    → resolve_output_codec mount.info.codec (mount_transcode cfg path) ≢ CodecId.mp3
    → (l : Listener) × (reason : DisconnectReason) × (serve frame
          (accept cfg path mount icy_metadata)
          events
        ≡ some (l, reason))
      × (l.wire ≡ prefix_of mount ++ broadcast events)
      × (l.bytes_sent ≡ length (broadcast events))
unfolding serve accept primed
serve-accept cfg path mount icy_metadata frame events h =
    let a = accept cfg path mount icy_metadata in
    let other = codec_eq_ne _ h in
    let plain : a.icy_requested ≡ false = rw other refl in
    let (l, reason, e, w, n) = run_plain 8192 frame events (primed a) in
    let (start, uncounted) = primed_lem a in
    (
      l,
      reason,
      ap (λ b. run 8192 frame b (primed a) events) plain ∙ e,
      w ∙ ap (λ z. z ++ broadcast events) start,
      omega (arith, n, uncounted),
    )

-- A listener is admitted only below the global limit and, where the mount has one, below its own; the
-- counts are those that the handler read.
pub admit-limits :
    (cfg : Config) (total_count listener_count : ℕ) (path : Text) (found : Option ActiveMount)
    (icy_metadata : Option Text) (a : Accepted)
    → admit cfg total_count listener_count path found icy_metadata ≡ accepted a
    → (mount : ActiveMount) × (found ≡ some mount)
      × (a ≡ accept cfg path mount icy_metadata)
      × (total_count < cfg.limits.max_listeners_global)
      × ((max : ℕ) → mount.info.max_listeners ≡ some max → listener_count < max)
unfolding admit
admit-limits cfg total_count listener_count path none icy_metadata a h = absurd cc
admit-limits cfg total_count listener_count path (some mount) icy_metadata a h =
    elim (Bool-cases (leb cfg.limits.max_listeners_global total_count)) [
      | inl full ↦ absurd (ground (arith, full, h))
      | inr room ↦ elim (Option-cases mount.info.max_listeners) [
        | inl unlimited ↦ (
          mount,
          refl,
          ground (arith, room, unlimited, h),
          ground (arith, room),
          λ max e. let clash = sym unlimited ∙ e in absurd cc,
        )
        | inr (max', limited) ↦ elim (Bool-cases (leb max' listener_count)) [
          | inl full ↦ absurd (ground (arith, room, limited, full, h))
          | inr below ↦ (
            mount,
            refl,
            ground (arith, room, limited, below, h),
            ground (arith, room),
            λ max e.
                let same : max' ≡ max = ground (arith, limited, e) in ground (arith, below, same),
          )
        ]
      ]
    ]
