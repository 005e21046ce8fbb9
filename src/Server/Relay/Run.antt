-- ===== src/Server/Relay/Run.antt =====
-- crates/rustyice-server/src/relay/mod.rs: the loop of `RelayTask`. What each iteration meets, from the
-- shutdown token, the mount, the upstream and the ingest, is a `Round`; the loop's own state is the
-- backoff. How it claims and releases the slot is in Core/Mount/Slot.
use rusty_ice.Prelude.{
  ℕ, Bool, true, false, not, ◌&&◌, Option, none, some, List, [], ◌∷◌, if◌then◌else◌,
}
use rusty_ice.Core.Mount.{SourceKind}
use rusty_ice.Server.Relay.Backoff.{Backoff, next_delay, reset}

pub data RunOutcome : Type 0 where
  ok failed run_cancelled : RunOutcome

-- How an ingest of the upstream's body ends.
pub data Ingested : Type 0 where
  ended ingest_cancelled ingest_failed : Ingested

-- The waits of `run_once`: for the connection, `none` where a token is cancelled first, `some false`
-- where it fails; and then for the ingest.
unfoldable pub run_once : Option Bool → Ingested → RunOutcome
run_once none ingested = run_cancelled
run_once (some false) ingested = failed
run_once (some true) ended = ok
run_once (some true) ingest_cancelled = run_cancelled
run_once (some true) ingest_failed = failed

pub record Round : Type 0 where
  -- `shutdown.is_cancelled()` when the iteration starts
  pub is_shut : Bool
  -- whose the slot is, if it is taken
  pub holder : Option SourceKind
  -- the shutdown has come when the wait for the holder is over
  pub is_shut_waiting : Bool
  -- `claim_slot`
  pub is_claimed : Bool
  pub connection : Option Bool
  pub ingested : Ingested
  -- `preempt_pending.swap(false, _)`
  pub is_preempted : Bool
  -- the shutdown has come after a cancellation
  pub is_shut_ending : Bool
  -- the shutdown ends the wait for a notification, or the delay
  pub is_shut_resting : Bool

unfoldable pub waits_for : Option SourceKind → Bool
waits_for none = false
waits_for (some SourceKind.relay) = false
waits_for (some SourceKind.unowned) = true
waits_for (some SourceKind.live) = true
waits_for (some SourceKind.auto_dj) = true

-- What the loop does to the world: an attempt that was cancelled, or one that ended well or not, with
-- the seconds waited after it.
pub data Act : Type 0 where
  was_cancelled : Act
  pulled : Bool → ℕ → Act

-- What an iteration does, and the backoff for the next one, `none` where the task returns.
unfoldable pub conclude : Round → Backoff → RunOutcome → List Act × Option Backoff
conclude r b run_cancelled = (
  was_cancelled ∷ [],
  if r.is_shut_ending then none else if r.is_preempted && r.is_shut_resting then none else some b,
)
conclude r b ok =
    let (delay, b') = next_delay (reset b) in
    (pulled true delay ∷ [], if r.is_shut_resting then none else some b')
conclude r b failed =
    let (delay, b') = next_delay b in
    (pulled false delay ∷ [], if r.is_shut_resting then none else some b')

unfoldable pub iterate : Round → Backoff → List Act × Option Backoff
iterate r b =
    if r.is_shut
    then ([], none)
    else if waits_for r.holder && r.is_shut_waiting
    then ([], none)
    else if not r.is_claimed
    then ([], some b)
    else conclude r b (run_once r.connection r.ingested)

unfoldable pub followed_by : Option (List Act) → List Act → List Act
followed_by none acts = acts
followed_by (some more) [] = more
followed_by (some more) (a ∷ acts) = a ∷ followed_by (some more) acts

unfoldable pub run : Backoff → List Round → List Act
run b [] = []
run b (r ∷ rs) =
    let (acts, next) = iterate r b in
    elim next [ none ↦ acts | some b' ↦ followed_by (some (run b' rs)) acts ]
