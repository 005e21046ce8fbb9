-- ===== src/Core/Mount/Slot.antt =====
-- The source slot of a mount: crates/rustyice-core/src/mount.rs with the tasks that compete for it,
-- crates/rustyice-autodj/src/player.rs, crates/rustyice-server/src/relay/mod.rs and
-- crates/rustyice-server/src/source_protocol.rs. Every atomic access to the mount is one step, and the
-- steps of any number of tasks interleave.
pub mod Exclusive
pub mod Playout
use rusty_ice.Prelude.{ℕ, ◌≡◌, Bool, true, false, Option, none, some, List, [], ◌∷◌, ◌++◌}
use rusty_ice.Core.Types.{CodecId}
use rusty_ice.Core.Mount.{SourceKind, SourceOverlay, MountInfo, ActiveMount, new}

-- Where a task stands. The first group is `claim_slot` of an AutoDJ or a relay, of the kind given, up
-- to the point where it holds its token; the second is `release_slot`, named after the last store
-- done; the third is `handle_source_connection`; the fourth is the drop of its guard.
pub data Task : Type 0 where
  outside : SourceKind → Task
  won kind_stored time_stored claimed : SourceKind → Task
  playing : SourceKind → ℕ → Task
  gave_up panicked : SourceKind → Task
  token_cleared time_cleared overlay_cleared header_cleared kind_cleared : SourceKind → Task
  live_won live_cancellable live_timed live_announced live_guarded : Task
  live_released live_token_cleared live_time_cleared live_overlay_cleared : Task

-- The kinds that `claim_slot` stores.
abbrev pub IsPlayout : SourceKind → Type 0
IsPlayout SourceKind.auto_dj = Unit
IsPlayout SourceKind.relay = Unit
IsPlayout _ = ⊥

-- One atomic access of one task.
pub data Step : Task → ActiveMount → Task → ActiveMount → Type 0 where
  -- claim_slot
  win :
      (k : SourceKind) (m : ActiveMount)
      → IsPlayout k
      → m.source_connected ≡ false
      → Step (outside k) m (won k) (record m { source_connected = true })
  lose :
      (k : SourceKind) (m : ActiveMount)
      → m.source_connected ≡ true
      → Step (outside k) m (outside k) m
  store_kind :
      (k : SourceKind) (m : ActiveMount)
      → Step (won k) m (kind_stored k) (record m { source_kind = k })
  store_time :
      (k : SourceKind) (m : ActiveMount) (now : ℕ)
      → Step (kind_stored k) m (time_stored k) (record m { connected_at = some now })
  store_token :
      (k : SourceKind) (m : ActiveMount) (token : ℕ)
      → Step (time_stored k) m (claimed k) (record m { source_cancel = some token })
  -- the token is read back; where there is none, `expect` of the relay panics, and the AutoDJ's pass is
  -- over, which releases the slot
  read_token :
      (k : SourceKind) (m : ActiveMount) (token : ℕ)
      → m.source_cancel ≡ some token
      → Step (claimed k) m (playing k token) m
  miss_token :
      (m : ActiveMount)
      → m.source_cancel ≡ none
      → Step (claimed SourceKind.relay) m (panicked SourceKind.relay) m
  give_up :
      (m : ActiveMount)
      → m.source_cancel ≡ none
      → Step (claimed SourceKind.auto_dj) m (gave_up SourceKind.auto_dj) m
  clear_no_token :
      (k : SourceKind) (m : ActiveMount)
      → Step (gave_up k) m (token_cleared k) (record m { source_cancel = none })
  -- while it plays, the header capture publishes the headers of the stream
  capture :
      (k : SourceKind) (m : ActiveMount) (token : ℕ) (bytes : List ℕ)
      → Step (playing k token) m (playing k token) (record m { header_bytes = some bytes })
  -- release_slot
  clear_token :
      (k : SourceKind) (m : ActiveMount) (token : ℕ)
      → Step (playing k token) m (token_cleared k) (record m { source_cancel = none })
  clear_time :
      (k : SourceKind) (m : ActiveMount)
      → Step (token_cleared k) m (time_cleared k) (record m { connected_at = none })
  clear_overlay :
      (k : SourceKind) (m : ActiveMount)
      → Step (time_cleared k) m (overlay_cleared k) (record m { source_overlay = none })
  clear_header :
      (k : SourceKind) (m : ActiveMount)
      → Step (overlay_cleared k) m (header_cleared k) (record m { header_bytes = none })
  clear_kind :
      (k : SourceKind) (m : ActiveMount)
      → Step (header_cleared k) m (kind_cleared k) (record m { source_kind = SourceKind.unowned })
  release :
      (k : SourceKind) (m : ActiveMount)
      → Step (kind_cleared k) m (outside k) (record m { source_connected = false })
  -- handle_source_connection
  live_win :
      (m : ActiveMount)
      → m.source_connected ≡ false
      → Step (outside SourceKind.live) m live_won (record m { source_connected = true })
  live_store_token :
      (m : ActiveMount) (token : ℕ)
      → Step live_won m live_cancellable (record m { source_cancel = some token })
  live_store_time :
      (m : ActiveMount) (now : ℕ)
      → Step live_cancellable m live_timed (record m { connected_at = some now })
  live_store_codec :
      (m : ActiveMount) (codec : CodecId)
      → Step live_timed m live_announced (record m { info = record m.info { codec = codec } })
  live_store_overlay :
      (m : ActiveMount) (overlay : SourceOverlay)
      → Step live_announced m live_guarded (record m { source_overlay = some overlay })
  live_capture :
      (m : ActiveMount) (bytes : List ℕ)
      → Step live_guarded m live_guarded (record m { header_bytes = some bytes })
  -- the drop of SourceDisconnectGuard, which gives up the slot first
  live_release :
      (m : ActiveMount) → Step live_guarded m live_released (record m { source_connected = false })
  live_clear_token :
      (m : ActiveMount)
      → Step live_released m live_token_cleared (record m { source_cancel = none })
  live_clear_time :
      (m : ActiveMount)
      → Step live_token_cleared m live_time_cleared (record m { connected_at = none })
  live_clear_overlay :
      (m : ActiveMount)
      → Step live_time_cleared m live_overlay_cleared (record m { source_overlay = none })
  live_clear_header :
      (m : ActiveMount)
      → Step live_overlay_cleared m (outside SourceKind.live) (record m { header_bytes = none })
  -- preempt_non_live_if_present asks the owner to park
  ask : (t : Task) (m : ActiveMount) → Step t m t (record m { preempt_pending = true })
  -- a parked or advancing owner takes the request back
  take_back :
      (k : SourceKind) (m : ActiveMount)
      → Step (outside k) m (outside k) (record m { preempt_pending = false })

abbrev pub kinds_outside : List SourceKind → List Task
kinds_outside [] = []
kinds_outside (k ∷ ks) = outside k ∷ kinds_outside ks

-- What any number of tasks can make of a new mount.
pub data Reachable (info : MountInfo) : ActiveMount → List Task → Type 0 where
  start : (ks : List SourceKind) → Reachable info (new info) (kinds_outside ks)
  next :
      (m m' : ActiveMount) (ts us : List Task) (t t' : Task)
      → Reachable info m (ts ++ (t ∷ us))
      → Step t m t' m'
      → Reachable info m' (ts ++ (t' ∷ us))
