-- ===== src/Core/Tests.antt =====
-- Runs of the tasks on a mount, and each result of the core modules at a concrete input.
use rusty_ice.Prelude.{◌≡◌, refl, true, none, List, [], ◌∷◌, ascii}
use rusty_ice.Core.Types.{CodecId}
use rusty_ice.Core.Mount.{SourceKind, MountInfo, ActiveMount, new}
use rusty_ice.Core.Mount.Slot.{Task, outside, won, kind_stored, Step, Reachable, start, next}
use rusty_ice.Core.Mount.Slot.Exclusive.{holders, Reachable-holders}
use rusty_ice.Core.Mount.Slot.Playout.{InOrder, Reachable-InOrder}

abbrev info : MountInfo
info = record {
  path = ascii "live";
  codec = CodecId.mp3;
  source_password = ascii "secret";
  max_listeners = none;
  metadata = record { name = none; description = none; genre = none; url = none };
}

abbrev pair : List SourceKind
pair = SourceKind.relay ∷ SourceKind.auto_dj ∷ []

-- The AutoDJ wins the slot and stores its kind; the relay is refused.
abbrev taken : ActiveMount
taken = record (new info) { source_connected = true; source_kind = SourceKind.auto_dj }

abbrev tasks : List Task
tasks = outside SourceKind.relay ∷ kind_stored SourceKind.auto_dj ∷ []

taken-Reachable : Reachable info taken tasks
unfolding new
taken-Reachable =
    next taken taken [] (kind_stored SourceKind.auto_dj ∷ []) (outside SourceKind.relay)
      (outside SourceKind.relay)
      (next (record (new info) { source_connected = true }) taken (outside SourceKind.relay ∷ []) []
        (won SourceKind.auto_dj) (kind_stored SourceKind.auto_dj)
        (next (new info) (record (new info) { source_connected = true })
          (outside SourceKind.relay ∷ []) [] (outside SourceKind.auto_dj) (won SourceKind.auto_dj)
          (start pair) (Step.win SourceKind.auto_dj (new info) tt refl))
        (Step.store_kind SourceKind.auto_dj _))
      (Step.lose SourceKind.relay taken refl)

Reachable-holders_example : holders tasks ≡ 1
Reachable-holders_example = Reachable-holders info taken tasks taken-Reachable

Reachable-InOrder_example : InOrder taken tasks
Reachable-InOrder_example = Reachable-InOrder info taken tasks taken-Reachable (tt, (tt, tt))
