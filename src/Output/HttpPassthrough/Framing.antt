-- ===== src/Output/HttpPassthrough/Framing.antt =====
-- crates/rustyice-output/src/http_passthrough.rs: a listener that counts `metaint` bytes of audio
-- between metadata frames hears the packets unchanged.
use rusty_ice.Prelude.{
  ℕ, zero, suc, ◌+◌, ◌-◌, ◌*◌, ◌≤◌, ◌<◌, ◌≡◌, ◌∙◌, refl, sym, ap, subst, min, inl, inr, true, false,
  some, List, [], ◌∷◌, ◌++◌, length, take, drop, leb, ◌==◌, if◌then◌else◌, arith, length-append,
  length-take, length-drop, take-append-drop, append_assoc, append-nil, Bool-cases,
}
use rusty_ice.Output.HttpPassthrough.{
  Listener, joined, write_chunk, write_frame, write_loop, write_with_icy, write_payload, run, Event,
  next, cancelled,
}
use rusty_ice.Core.Types.{AudioPayload, encoded, decoded, DisconnectReason}
use rusty_ice.Output.HttpPassthrough.Frame.{IsFrame}

-- Where a listener stands: before `k` more bytes of audio, or before n + 1 more bytes of metadata.
pub data Mode : Type 0 where
  audio : ℕ → Mode
  meta : ℕ → Mode

-- The encoded audio of a payload, and of what came before the cancellation.
unfoldable pub audio_in : AudioPayload → List ℕ
audio_in (encoded e) = e.bytes
audio_in (decoded _) = []

unfoldable pub broadcast : List Event → List ℕ
broadcast [] = []
broadcast (cancelled ∷ rest) = []
broadcast (next p ∷ rest) = audio_in p.payload ++ broadcast rest

module _ (metaint : ℕ) where
  mode_next : Mode → ℕ → Mode
  mode_next (audio zero) b = if b == 0 then audio metaint else meta (16 * b - 1)
  mode_next (audio (suc k)) b = audio k
  mode_next (meta zero) b = audio metaint
  mode_next (meta (suc n)) b = meta n

  mode_after : Mode → List ℕ → Mode
  mode_after m [] = m
  mode_after m (b ∷ bs) = mode_after (mode_next m b) bs

  heard : Mode → ℕ → List ℕ
  heard (audio zero) b = []
  heard (audio (suc k)) b = b ∷ []
  heard (meta n) b = []

  -- The audio that a listener extracts from the bytes on the wire.
  pub receive : Mode → List ℕ → List ℕ
  unfolding heard mode_next
  receive m [] = []
  receive m (b ∷ bs) = heard m b ++ receive (mode_next m b) bs

  receive-append :
      (m : Mode) (xs ys : List ℕ)
      → receive m (xs ++ ys) ≡ receive m xs ++ receive (mode_after m xs) ys
  unfolding receive mode_after
  receive-append m [] ys = refl
  receive-append m (x ∷ xs) ys =
      ap (◌++◌ (heard m x)) (receive-append (mode_next m x) xs ys)
      ∙ sym (append_assoc (heard m x) _ _)

  mode_after-append :
      (m : Mode) (xs ys : List ℕ) → mode_after m (xs ++ ys) ≡ mode_after (mode_after m xs) ys
  unfolding mode_after
  mode_after-append m [] ys = refl
  mode_after-append m (x ∷ xs) ys = mode_after-append (mode_next m x) xs ys

  receive_chunk :
      (k : ℕ) (xs : List ℕ)
      → length xs ≤ k
      → (receive (audio k) xs ≡ xs) × (mode_after (audio k) xs ≡ audio (k - length xs))
  unfolding receive mode_after
  receive_chunk k [] h = (refl, ap audio (omega arith))
  receive_chunk zero (x ∷ xs) h = absurd (omega arith)
  receive_chunk (suc k) (x ∷ xs) h =
      let (r, m) = receive_chunk k xs (omega arith) in (ap (◌∷◌ x) r, m ∙ ap audio (omega arith))

  receive_meta :
      (n : ℕ) (xs : List ℕ)
      → length xs ≡ suc n
      → (receive (meta n) xs ≡ []) × (mode_after (meta n) xs ≡ audio metaint)
  unfolding receive mode_after
  receive_meta n [] h = absurd (omega arith)
  receive_meta zero (x ∷ []) h = (refl, refl)
  receive_meta zero (x ∷ y ∷ xs) h = absurd (omega arith)
  receive_meta (suc n) (x ∷ xs) h = receive_meta n xs (omega arith)

  receive_frame :
      (f : List ℕ)
      → IsFrame f
      → (receive (audio 0) f ≡ []) × (mode_after (audio 0) f ≡ audio metaint)
  unfolding receive mode_after
  receive_frame [] h = absurd h
  receive_frame (b ∷ []) h =
      let none_left : (b == 0) ≡ true = ground (arith, h) in ground (arith, none_left)
  receive_frame (b ∷ c ∷ bs) h =
      let some_left : (b == 0) ≡ false = ground (arith, h) in
      let body = receive_meta (16 * b - 1) (c ∷ bs) (ground (arith, h)) in
      ground (arith, some_left, body)

  -- A listener that has heard `sound` of the wire and waits for `left` more bytes of audio.
  record Hears (sound wire : List ℕ) (left : ℕ) : Type 0 where
    sounds : receive (audio metaint) wire ≡ sound
    stands : mode_after (audio metaint) wire ≡ audio left

  chunk-Hears :
      (sound wire chunk : List ℕ) (left : ℕ)
      → Hears sound wire left
      → length chunk ≤ left
      → Hears (sound ++ chunk) (wire ++ chunk) (left - length chunk)
  chunk-Hears sound wire chunk left h k =
      let (r, m) = receive_chunk left chunk k in
      record {
        sounds = rw (receive-append (audio metaint) wire chunk, h.sounds, h.stands, r);
        stands = rw (mode_after-append (audio metaint) wire chunk, h.stands, m);
      }

  frame-Hears :
      (sound wire f : List ℕ) → Hears sound wire 0 → IsFrame f → Hears sound (wire ++ f) metaint
  frame-Hears sound wire f h k =
      let (r, m) = receive_frame f k in
      record {
        sounds =
            rw (receive-append (audio metaint) wire f, h.sounds, h.stands, r) (append-nil sound);
        stands = rw (mode_after-append (audio metaint) wire f, h.stands, m);
      }

  -- The writer counts as the listener does.
  record IsInStep (sound : List ℕ) (l : Listener) : Type 0 where
    counted : l.bytes_since_meta < metaint
    hears : Hears sound l.wire (metaint - l.bytes_since_meta)
    sent : l.bytes_sent ≡ length sound

  module _ (frame : ℕ → List ℕ) (frames : (k : ℕ) → IsFrame (frame k)) where
    round-IsInStep :
        (sound chunk : List ℕ) (l : Listener)
        → IsInStep sound l
        → length chunk ≤ metaint - l.bytes_since_meta
        → IsInStep (sound ++ chunk) (write_frame metaint frame (write_chunk metaint frame l chunk))
    unfolding write_frame write_chunk
    round-IsInStep sound chunk l s h =
        let count = l.bytes_since_meta + length chunk in
        let size = length-append sound chunk in
        let heard = chunk-Hears sound l.wire chunk (metaint - l.bytes_since_meta) s.hears h in
        let waits : Hears (sound ++ chunk) (l.wire ++ chunk) (metaint - count) =
          subst (Hears (sound ++ chunk) (l.wire ++ chunk)) (omega arith) heard in
        let total : l.bytes_sent + length chunk ≡ length (sound ++ chunk) =
          omega (arith, s.sent, size) in
        elim (Bool-cases (leb metaint count)) [
          | inl due ↦
              let none_left : metaint - count ≡ 0 = ground (arith, due) in
              let now = subst (Hears (sound ++ chunk) (l.wire ++ chunk)) none_left waits in
              let framed =
                frame-Hears (sound ++ chunk) (l.wire ++ chunk) (frame l.frames) now
                  (frames l.frames) in
              let full : metaint ≡ metaint - 0 = omega arith in
              rw due (record {
                counted = omega (arith, s.counted);
                hears = subst (Hears (sound ++ chunk) _) full framed;
                sent = total;
              })
          | inr early ↦
              rw early (record { counted = ground (arith, early); hears = waits; sent = total })
        ]

    -- Fuel for one round more than there are bytes: each round takes at least one.
    loop-IsInStep :
        (fuel : ℕ) (sound xs : List ℕ) (l : Listener)
        → length xs < fuel
        → IsInStep sound l
        → (l' : Listener) × (write_loop metaint frame fuel l xs ≡ some l')
          × IsInStep (sound ++ xs) l'
    unfolding write_loop
    loop-IsInStep zero sound xs l h s = absurd (omega arith)
    loop-IsInStep (suc fuel) sound [] l h s =
        (l, refl, subst (λ z. IsInStep z l) (sym (append-nil sound)) s)
    loop-IsInStep (suc fuel) sound (x ∷ xs) l h s =
        let n = min (metaint - l.bytes_since_meta) (length (x ∷ xs)) in
        let chunk = take n (x ∷ xs) in
        let rest = drop n (x ∷ xs) in
        let size : length chunk ≤ metaint - l.bytes_since_meta =
          omega (arith, length-take n (x ∷ xs)) in
        let shorter : length rest < fuel = omega (arith, length-drop n (x ∷ xs), s.counted) in
        let (l', e, t) =
          loop-IsInStep fuel (sound ++ chunk) rest
            (write_frame metaint frame (write_chunk metaint frame l chunk)) shorter
            (round-IsInStep sound chunk l s size) in
        let whole : (sound ++ chunk) ++ rest ≡ sound ++ (x ∷ xs) =
          append_assoc sound chunk rest ∙ ap (◌++◌ sound) (take-append-drop n (x ∷ xs)) in
        (l', e, subst (λ z. IsInStep z l') whole t)

    payload-IsInStep :
        (sound : List ℕ) (a : AudioPayload) (l : Listener)
        → IsInStep sound l
        → (l' : Listener) × (write_payload metaint frame true l a ≡ some l')
          × IsInStep (sound ++ audio_in a) l'
    unfolding write_payload write_with_icy audio_in
    payload-IsInStep sound (encoded e) l s =
        loop-IsInStep (suc (length e.bytes)) sound e.bytes l (omega arith) s
    payload-IsInStep sound (decoded _) l s =
        (l, refl, subst (λ z. IsInStep z l) (sym (append-nil sound)) s)

    run-IsInStep :
        (sound : List ℕ) (events : List Event) (l : Listener)
        → IsInStep sound l
        → (l' : Listener) × (reason : DisconnectReason) × (run metaint frame true l events
            ≡ some (l', reason))
          × IsInStep (sound ++ broadcast events) l'
    unfolding run broadcast
    run-IsInStep sound [] l s = (l, _, refl, subst (λ z. IsInStep z l) (sym (append-nil sound)) s)
    run-IsInStep sound (cancelled ∷ rest) l s =
        (l, _, refl, subst (λ z. IsInStep z l) (sym (append-nil sound)) s)
    run-IsInStep sound (next p ∷ rest) l s =
        let (l1, e1, s1) = payload-IsInStep sound p.payload l s in
        let (l2, r, e2, s2) = run-IsInStep (sound ++ audio_in p.payload) rest l1 s1 in
        (
          l2,
          r,
          rw (run, e1) e2,
          subst (λ z. IsInStep z l2) (append_assoc sound (audio_in p.payload) (broadcast rest)) s2,
        )

    -- Where the byte count between frames is not 0 and every frame is well formed, a run for a
    -- listener that asked for metadata ends, and the listener, who skips a frame after each `metaint`
    -- bytes, hears exactly the encoded audio of the packets up to the end of the subscription or the
    -- cancellation; `bytes_sent` counts that audio and no metadata.
    pub run-receive :
        (events : List Event)
        → 0 < metaint
        → (l : Listener) × (reason : DisconnectReason) × (run metaint frame true joined events
            ≡ some (l, reason))
          × (receive (audio metaint) l.wire ≡ broadcast events)
          × (l.bytes_sent ≡ length (broadcast events))
    unfolding receive mode_after
    run-receive events h =
        let (l, r, e, s) = run-IsInStep [] events joined (record {
          counted = h;
          hears = record { sounds = refl; stands = ap audio (omega arith) };
          sent = refl;
        }) in
        (l, r, e, s.hears.sounds, s.sent)
