-- ===== src/Output/Tests.antt =====
-- Runs of the output definitions, and each result of the output modules at a concrete input.
use rusty_ice.Prelude.{
  ℕ, ◌≤◌, ◌≡◌, ◌↔◌, refl, true, some, none, List, [], ◌∷◌, length, arith, ascii,
}
use rusty_ice.Core.Types.{CodecId, encoded, StreamPacket, DisconnectReason}
use rusty_ice.Core.Mount.{MountInfo, MountMetadata}
use rusty_ice.Output.HttpPassthrough.{
  Listener, joined, frame_for, build_icy_frame, title_of, url_of, write_chunk, write_frame,
  write_loop, write_with_icy, write_payload, run, Event, next, cancelled,
}
use rusty_ice.Output.HttpPassthrough.Frame.{IsFrame, frame_for-IsFrame}
use rusty_ice.Output.HttpPassthrough.Framing.{receive, audio, run-receive, broadcast, audio_in}

abbrev metadata : MountMetadata
metadata = record { name = some (ascii "radio"); description = none; genre = none; url = none }

abbrev info : MountInfo
info = record {
  path = ascii "live";
  codec = CodecId.mp3;
  source_password = ascii "secret";
  max_listeners = none;
  metadata = metadata;
}

-- With no title and no overlay the mount's name is shown: 28 + 5 bytes of text make 3 blocks.
named_frame : length (build_icy_frame info none none) ≡ 49
unfolding build_icy_frame title_of url_of frame_for
named_frame = refl

abbrev packet : List ℕ → StreamPacket
packet bytes = record {
  payload = encoded (record { codec = CodecId.mp3; bytes = bytes });
  pts = 0;
  sequence = 0;
}

abbrev events : List Event
events = next (packet (1 ∷ 2 ∷ 3 ∷ [])) ∷ next (packet (4 ∷ 5 ∷ [])) ∷ cancelled ∷ []

two_frames :
    run 2 (λ _. 0 ∷ []) true joined events
    ≡ some (
      record {
        wire = 1 ∷ 2 ∷ 0 ∷ 3 ∷ 4 ∷ 0 ∷ 5 ∷ [];
        bytes_since_meta = 1;
        bytes_sent = 5;
        frames = 2;
      },
      DisconnectReason.shutting_down,
    )
unfolding run write_payload write_with_icy write_loop write_chunk write_frame
two_frames = refl

frame_for-IsFrame_example : IsFrame (frame_for (ascii "song") []) ↔ (4 ≤ 4052)
frame_for-IsFrame_example = frame_for-IsFrame (ascii "song") []

run-receive_example :
    (l : Listener) × (reason : DisconnectReason) × (run 2
        (λ _. frame_for (ascii "song") [])
        true
        joined
        events
      ≡ some (l, reason))
    × (receive 2 (audio 2) l.wire ≡ 1 ∷ 2 ∷ 3 ∷ 4 ∷ 5 ∷ [])
    × (l.bytes_sent ≡ 5)
unfolding broadcast audio_in
run-receive_example =
    run-receive 2 (λ _. frame_for (ascii "song") [])
      (λ _. (frame_for-IsFrame (ascii "song") []).1 (omega arith)) events (omega arith)
